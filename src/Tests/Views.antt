-- ===== src/Tests/Views.antt =====
-- views/list_view.js, views/autocomplete_text_field_view.js and views/vertical_split_view.js.
use flame_js.Prelude.{ℕ, ◌≡◌, refl, Bool, true, false, none, some, [], ◌∷◌, arith, ltb, ==_iff}
use flame_js.Prelude.Int.{pos, negsuc, ◌+ℤ◌}
use flame_js.Autocomplete.{idle, requesting, Fields, do_request, did_finish, did_fetch, step, run}
use flame_js.Autocomplete.Queries.{
  in_state, OneRunning, last_query, started, run-OneRunning, finish_lem,
}
use flame_js.ListView
use flame_js.ListView.{ItemView, select_next, place_of, mouse_down, mouse_move, mouse_up, move_up}
use flame_js.ListView.Choosing.{Chosen, select_next-Chosen}
use flame_js.ListView.Dragging.{StateOk, inits, finishes, run-StateOk}
use flame_js.ListView.Marking.{AllMarked}
use flame_js.ListView.Selected.{FixedOk, run-FixedOk}
use flame_js.SplitView.{SplitView, right, update_layout, start_resize, resize_all}
use flame_js.SplitView.Layout.{Fits, HasRoom, update_layout-Fits}
use flame_js.SplitView.Resizing.{resize_back}

-- Queries below 10 are accepted.
abbrev accepts : ℕ → Bool
accepts q = ltb q 10

abbrev field : Fields ℕ ℕ
field = record {
  has_delegate = true;
  last_queued_query = none;
  menu = none;
  asked = [];
  finished = 0;
}

run-OneRunning_example : OneRunning accepts (
    run accepts (in_state idle field) (do_request (some 3) ∷ do_request (some 4) ∷ did_finish ∷ []))
unfolding started
run-OneRunning_example =
    run-OneRunning accepts (in_state idle field)
      (do_request (some 3) ∷ do_request (some 4) ∷ did_finish ∷ []) refl

finish_lem_example :
    let b =
      step accepts
        (run accepts
          (in_state requesting field)
          (do_request (some 4) ∷ do_request none ∷ did_fetch (7 ∷ []) ∷ []))
        did_finish in
    (b.current ≡ some requesting) × (b.owner.asked ≡ 4 ∷ []) × (b.owner.last_queued_query ≡ none)
unfolding last_query
finish_lem_example =
    finish_lem accepts (do_request (some 4) ∷ do_request none ∷ did_fetch (7 ∷ []) ∷ []) field refl
      tt

abbrev split_view : SplitView
split_view = record {
  flex = right;
  left_width = some (pos 20);
  right_width = none;
  min_left_width = pos 30;
  min_right_width = pos 10;
  divider_thickness = pos 5;
  total_width = some (pos 100);
  allow_resizing = true;
  un_collapsed_left_width = none;
  un_collapsed_right_width = none;
  resize_start_x = pos 0;
  resize_start_left_width = none;
  resize_start_right_width = none;
}

room : HasRoom split_view (pos 100)
unfolding ◌+ℤ◌
room = omega arith

update_layout-Fits_example : Fits (update_layout split_view) (pos 100)
update_layout-Fits_example = update_layout-Fits split_view (pos 100) refl (pos 20) refl room

-- The same view after its layout was updated.
abbrev laid_out : SplitView
laid_out = record split_view { left_width = some (pos 30); right_width = some (pos 65) }

laid_out-Fits : Fits laid_out (pos 100)
unfolding ◌+ℤ◌
laid_out-Fits = record {
  left = pos 30;
  right = pos 65;
  left_is = refl;
  right_is = refl;
  fills = refl;
  left_least = omega arith;
  right_least = omega arith;
}

resize_back_example :
    let b = resize_all (pos 70 ∷ negsuc 500 ∷ pos 32 ∷ []) (start_resize (pos 32) laid_out) in
    (b.left_width ≡ some (pos 30)) × (b.right_width ≡ some (pos 65))
resize_back_example =
    resize_back laid_out (pos 100) refl laid_out-Fits (pos 32) (pos 70 ∷ negsuc 500 ∷ [])

abbrev item_view : Bool → ItemView
item_view b = record { is_visible = b; allow_selection = true; is_selected = false }

abbrev list_fields : ListView.Fields
list_fields = record {
  content = 7 ∷ 8 ∷ 9 ∷ [];
  children = item_view true ∷ item_view false ∷ item_view true ∷ [];
  selection = some 7;
  allow_selection = true;
  allow_reordering = true;
  drag_helper = none;
  is_dragging = false;
  calls = [];
}

select_next-Chosen_example : Chosen list_fields 1 3 (select_next list_fields)
unfolding place_of
select_next-Chosen_example = select_next-Chosen list_fields

run-StateOk_example : StateOk (
    ListView.run
      (λ _. true)
      (record { current = some ListView.idle; owner = list_fields })
      (mouse_down (some 2) 10 10 ∷ mouse_move 10 20 ∷ mouse_up ∷ []))
unfolding inits finishes
run-StateOk_example =
    run-StateOk (λ _. true) (record { current = some ListView.idle; owner = list_fields })
      (mouse_down (some 2) 10 10 ∷ mouse_move 10 20 ∷ mouse_up ∷ [])
      (record {
        now = ListView.idle;
        current = refl;
        ok = record { helper = refl; flag = refl; balanced = omega arith };
      })

-- A list that does not allow reordering, with nothing selected.
abbrev fixed_list : ListView.ListView
fixed_list = record {
  current = some ListView.idle;
  owner = record list_fields { selection = none; allow_reordering = false };
}

run-FixedOk_example : FixedOk (
    ListView.run
      (λ _. true)
      fixed_list
      (mouse_down (some 2) 10 10 ∷ mouse_move 10 30 ∷ mouse_up ∷ move_up ∷ []))
unfolding AllMarked
run-FixedOk_example =
    run-FixedOk (λ _. true) fixed_list
      (mouse_down (some 2) 10 10 ∷ mouse_move 10 30 ∷ mouse_up ∷ move_up ∷ [])
      (record {
        marks =
            ((λ a. ground (arith, ==_iff 7 a, ==_iff 8 a, ==_iff 9 a)), (refl, (refl, (refl, tt))));
        fixed = (refl, refl);
        no_drag = tt;
      })
