-- ===== src/Button/Flags.antt =====
-- views/button_view.js: the flags `isHovered` and `isActive` follow the state.
use flame_js.Prelude.{
  ℕ, ◌≡◌, Bool, true, false, Option, none, some, List, [], ◌∷◌, arith, get_elem?,
}
use flame_js.Button.{
  State, hover, mouse_down_inside, Timer, up, up_and_leave, Fields, Button, Message, send, Event,
  message, insert_space, timer, set_disabled, step, run, init, expire, expire_at,
}

abbrev pub is_hover : Option State → Bool
is_hover (some hover) = true
is_hover _ = false

abbrev pub is_pressed : Option State → Bool
is_pressed (some mouse_down_inside) = true
is_pressed _ = false

pub record Flags (b : Button) : Type 0 where
  pub alive : b.owner.is_destroyed ≡ false
  pub hovered : b.owner.is_hovered ≡ is_hover b.current
  pub active : b.owner.is_active ≡ is_pressed b.current

pub send-Flags : (msg : Message) (b : Button) → Flags b → Flags (send msg b).0
unfolding send
send-Flags msg b h = ground arith

expire-Flags : (t : Timer) (b : Button) → Flags b → Flags (expire t b)
unfolding expire
expire-Flags up b h = send-Flags Message.mouse_up b h
expire-Flags up_and_leave b h = send-Flags Message.mouse_leave _ (send-Flags Message.mouse_up b h)

expire_at-Flags : (o : Option Timer) (i : ℕ) (b : Button) → Flags b → Flags (expire_at o i b)
unfolding expire_at
expire_at-Flags none i b h = h
expire_at-Flags (some t) i b h =
    expire-Flags t _ (record { alive = h.alive; hovered = h.hovered; active = h.active })

pub step-Flags : (b : Button) (e : Event) → Flags b → Flags (step b e)
unfolding step
step-Flags b (message msg) h = send-Flags msg b h
step-Flags b insert_space h = send-Flags Message.simulate_click b h
step-Flags b (timer i) h = expire_at-Flags (get_elem? b.owner.timers i) i b h
step-Flags b (set_disabled v) h = ground arith

run-Flags : (es : List Event) (b : Button) → Flags b → Flags (run b es)
unfolding run
run-Flags [] b h = h
run-Flags (e ∷ es) b h = run-Flags es (step b e) (step-Flags b e h)

-- What a button is created with.
pub record IsFresh (o : Fields) : Type 0 where
  pub alive : o.is_destroyed ≡ false
  pub not_hovered : o.is_hovered ≡ false
  pub not_active : o.is_active ≡ false

init-Flags : (o : Fields) → IsFresh o → Flags (init o)
unfolding init
init-Flags o h = ground arith

-- After any sequence of events, timers and changes of `isDisabled` included, a button that was
-- created with both flags off and is not destroyed has `isHovered` set exactly in the state `hover`
-- and `isActive` set exactly in the state `mouseDownInside`.
pub run-init-Flags : (o : Fields) (es : List Event) → IsFresh o → Flags (run (init o) es)
run-init-Flags o es h = run-Flags es (init o) (init-Flags o h)
