-- ===== src/Tests/Layouts.antt =====
-- layout_managers/vertical_stack_layout_manager.js and views/menu_scroll_view.js.
use flame_js.Prelude.{
  get_elem?, ℕ, ◌+◌, ◌-◌, ◌≤◌, ◌≡◌, refl, true, false, none, some, [], ◌∷◌, arith,
}
use flame_js.Stacking.{
  Layout, Child, Manager, Parent, or_zero, setup_layout, stack_up, heights_given, none_left,
}
use flame_js.Stacking.Apart.{bottom, layouts, setup_layout_apart}
use flame_js.Stacking.Heights.{all_fixed, setup_layout_inside}
use flame_js.MenuScroll.{ScrollView, still, at_top, enter_down, step}
use flame_js.MenuScroll.Arriving.{Arrived, run_timers, enter_down-Arrived}

abbrev layout_of : ℕ → Layout
layout_of height = record {
  top = none;
  height = some height;
  max_height = none;
  top_margin = some 1;
  top_padding = none;
  bottom_padding = some 2;
}

abbrev child : ℕ → Child
child height = record {
  ignore_layout_manager = false;
  is_visible = some true;
  layout = some (layout_of height);
}

abbrev hidden : Child
hidden = record {
  ignore_layout_manager = false;
  is_visible = some false;
  layout = some (layout_of 9);
}

abbrev manager : Manager
manager = record { top_margin = 3; bottom_margin = 4; spacing = 5 }

abbrev parent : Parent
parent = record { layout = layout_of 0; children = child 10 ∷ hidden ∷ child 20 ∷ [] }

abbrev first : Layout
first = record (layout_of 10) { top = some 4 }

abbrev second : Layout
second = record (layout_of 20) { top = some 22 }

abbrev laid_out : Parent
laid_out = record {
  layout = record (layout_of 0) { height = some 48 };
  children =
      record (child 10) { layout = some first }
      ∷ hidden
      ∷ record (child 20) { layout = some second }
      ∷ [];
}

laid_out_is : setup_layout manager parent ≡ some laid_out
unfolding setup_layout stack_up heights_given none_left
laid_out_is = refl

setup_layout_apart_example : (bottom first + 5 ≤ or_zero second.top) × (3 ≤ or_zero first.top)
unfolding layouts
setup_layout_apart_example =
    setup_layout_apart manager parent laid_out 0 1 first second laid_out_is (omega arith) refl refl

setup_layout_inside_example :
    (v' : Parent) × (a : Layout) × (h : ℕ) × (setup_layout manager parent ≡ some v')
    × (get_elem? (layouts v'.children) 1 ≡ some a)
    × (v'.layout.height ≡ some h)
    × (bottom a + 4 ≤ h)
unfolding layouts all_fixed
setup_layout_inside_example = setup_layout_inside manager parent 1 refl refl (omega arith)

abbrev scroll_view : ScrollView
scroll_view = record {
  need_scrolling = true;
  scroll_direction = still;
  scroll_position = at_top;
  scroll_size = 10;
  up_shown = false;
  down_shown = true;
  scroll_top = 0;
  view_port_height = 50;
  list_height = 75;
  timer = none;
  waiting = [];
  next_timer = 0;
}

enter_down-Arrived_example :
    Arrived (75 - 50) (run_timers (75 - 50 - 0) (step scroll_view enter_down))
enter_down-Arrived_example = enter_down-Arrived scroll_view refl refl (omega arith)
