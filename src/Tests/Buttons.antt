-- ===== src/Tests/Buttons.antt =====
-- statechart.js and views/button_view.js: a button that is idle, hovered, pressed, disabled.
use flame_js.Prelude.{refl, Bool, true, false, List, [], ◌∷◌}
use flame_js.Button.{
  Fields, mouse_enter, mouse_down, mouse_up, Event, message, insert_space, timer, init, run,
}
use flame_js.Button.Flags.{Flags, IsFresh, run-init-Flags}

fields : Bool → Fields
fields disabled = record {
  is_hovered = false;
  is_active = false;
  is_selected = false;
  is_disabled = disabled;
  is_sticky = true;
  is_destroyed = false;
  fired = 0;
  timers = [];
}

fields-IsFresh : IsFresh (fields false)
unfolding fields
fields-IsFresh = record { alive = refl; not_hovered = refl; not_active = refl }

abbrev click : List Event
click = message mouse_enter ∷ message mouse_down ∷ message mouse_up ∷ insert_space ∷ timer 0 ∷ []

run-init-Flags_example : Flags (run (init (fields false)) click)
run-init-Flags_example = run-init-Flags (fields false) click fields-IsFresh
