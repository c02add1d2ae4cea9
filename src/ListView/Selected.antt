-- ===== src/ListView/Selected.antt =====
-- views/list_view.js: the marks of the child views, whatever happens.
use mathlib.Core.Path.{subst}
use flame_js.Prelude.{
  ◌≡◌, refl, false, arith, ℕ, zero, suc, ◌-◌, sym, Bool, Option, none, some, List, [], ◌∷◌,
  if_keeps, cases_keep, length, get_elem?,
}
use flame_js.Prelude.Items.{NoRepeats}
use flame_js.ListView.{
  State, idle, mouse_button_pressed, reordering, Fields, ListView, set_selection, selectable,
  select_index, select_down, select_up, selected_place, select_next, select_previous, select_item,
  note_helper, goto, should_start_dragging, press_moved, mouse_down_on_item, Message, move_up,
  move_down, mouse_up, mouse_up_on_item, touch_end, mouse_down, mouse_move, step, run,
}
use flame_js.ListView.Keeping.{
  Kept, set_selection-Kept, select_next-Kept, select_previous-Kept, select_item-Kept,
}
use flame_js.ListView.Marking.{AllMarked, set_selection-AllMarked}

-- No item is twice in the content, and each child view is marked exactly if its item is the selected one.
abbrev pub MarksOk : Fields → Type 0
MarksOk f = NoRepeats f.content × AllMarked f.selection f.content f.children

set_selection-MarksOk : (o : Option ℕ) (f : Fields) → MarksOk f → MarksOk (set_selection o f)
unfolding Kept
set_selection-MarksOk o f h =
    let g = set_selection o f in
    let (marks, chosen) = set_selection-AllMarked o f h.0 h.1 in
    (
      subst (λ (k : Fields). NoRepeats k.content) (sym (set_selection-Kept o f)) h.0,
      subst (λ s. AllMarked s g.content g.children) (sym chosen) marks,
    )

abbrev ResultOk : Fields × Bool → Type 0
ResultOk r = MarksOk r.0

select_index-MarksOk : (i : ℕ) (f : Fields) → MarksOk f → MarksOk (select_index i f).0
unfolding select_index
select_index-MarksOk i f h =
    if_keeps ResultOk (selectable f i) (λ _. set_selection-MarksOk (get_elem? f.content i) f h)
      (λ _. h)

select_down-MarksOk : (i n : ℕ) (f : Fields) → MarksOk f → MarksOk (select_down i n f).0
unfolding select_down
select_down-MarksOk i zero f h = h
select_down-MarksOk i (suc n) f h =
    if_keeps ResultOk (select_index i f).1 (λ _. select_index-MarksOk i f h)
      (λ _. select_down-MarksOk (suc i) n f h)

select_up-MarksOk : (i : ℕ) (f : Fields) → MarksOk f → MarksOk (select_up i f).0
unfolding select_up
select_up-MarksOk zero f h = h
select_up-MarksOk (suc i) f h =
    if_keeps ResultOk (select_index i f).1 (λ _. select_index-MarksOk i f h)
      (λ _. select_up-MarksOk i f h)

select_next-MarksOk : (f : Fields) → MarksOk f → MarksOk (select_next f).0
unfolding select_next
select_next-MarksOk f h =
    cases_keep ResultOk (selected_place f) (λ _. select_down-MarksOk 0 (length f.content) f h)
      (λ i _. select_down-MarksOk (suc i) (length f.content - suc i) f h)

select_previous-MarksOk : (f : Fields) → MarksOk f → MarksOk (select_previous f).0
unfolding select_previous
select_previous-MarksOk f h =
    cases_keep ResultOk (selected_place f) (λ _. h) (λ i _. select_up-MarksOk i f h)

select_item-MarksOk : (i : Option ℕ) (f : Fields) → MarksOk f → MarksOk (select_item i f)
select_item-MarksOk none f h = h
select_item-MarksOk (some i) f h = select_index-MarksOk i f h

-- No item may be dragged, and none is.
abbrev pub Fixed : Fields → Type 0
Fixed f = (f.allow_reordering ≡ false) × (f.drag_helper ≡ none)

abbrev pub NoDrag : Option State → Type 0
NoDrag (some reordering) = ⊥
NoDrag _ = Unit

-- A list that does not allow reordering, with its marks.
pub record FixedOk (b : ListView) : Type 0 where
  pub marks : MarksOk b.owner
  pub fixed : Fixed b.owner
  pub no_drag : NoDrag b.current

Kept-Fixed : (f g : Fields) → Kept f g → Fixed f → Fixed g
unfolding Kept
Kept-Fixed f g e h = subst Fixed (sym e) h

-- A list in a state.
abbrev at_state : Option State → Fields → ListView
at_state o f = record { current = o; owner = f }

note_helper_still :
    (allows : ℕ → Bool) (i : Option ℕ) (x y : ℕ) (f : Fields)
    → Fixed f
    → note_helper allows i x y f ≡ f
note_helper_still allows none x y f h = refl
note_helper_still allows (some i) x y f h = ground (arith, h.0)

press_moved_still :
    (x y : ℕ) (o : Option State) (f : Fields)
    → Fixed f
    → press_moved x y (at_state o f) ≡ at_state o f
unfolding press_moved should_start_dragging
press_moved_still x y o f h = ground (arith, h.1)

selected-FixedOk :
    (f g : Fields) → Kept f g → MarksOk g → Fixed f → FixedOk (at_state (some idle) g)
selected-FixedOk f g e marks h = record { marks = marks; fixed = Kept-Fixed f g e h; no_drag = tt }

module _ (allows : ℕ → Bool) where
  mouse_down-FixedOk :
      (i : Option ℕ) (x y : ℕ) (f : Fields)
      → MarksOk f
      → Fixed f
      → FixedOk (mouse_down_on_item allows i x y (at_state (some idle) f))
  unfolding mouse_down_on_item goto
  mouse_down-FixedOk i x y f h still =
      let g = select_item i f in
      let fixed = Kept-Fixed f g (select_item-Kept i f) still in
      subst (λ k. FixedOk (at_state (some mouse_button_pressed) k))
        (sym (note_helper_still allows i x y g fixed))
        (record { marks = select_item-MarksOk i f h; fixed = fixed; no_drag = tt })

  released :
      (f : Fields)
      → MarksOk f
      → Fixed f
      → FixedOk (goto idle (at_state (some mouse_button_pressed) f))
  unfolding goto
  released f h still = record { marks = h; fixed = (still.0, refl); no_drag = tt }

  step-FixedOk :
      (o : Option State) (m : Message) (f : Fields)
      → NoDrag o
      → MarksOk f
      → Fixed f
      → FixedOk (step allows (at_state o f) m)
  unfolding step
  step-FixedOk none m f d h k = record { marks = h; fixed = k; no_drag = tt }
  step-FixedOk (some idle) move_up f d h k =
      selected-FixedOk f _ (select_previous-Kept f) (select_previous-MarksOk f h) k
  step-FixedOk (some idle) move_down f d h k =
      selected-FixedOk f _ (select_next-Kept f) (select_next-MarksOk f h) k
  step-FixedOk (some idle) (mouse_down i x y) f d h k = mouse_down-FixedOk i x y f h k
  step-FixedOk (some idle) mouse_up f d h k = record { marks = h; fixed = k; no_drag = tt }
  step-FixedOk (some idle) mouse_up_on_item f d h k = record { marks = h; fixed = k; no_drag = tt }
  step-FixedOk (some idle) touch_end f d h k = record { marks = h; fixed = k; no_drag = tt }
  step-FixedOk (some idle) (mouse_move x y) f d h k = record { marks = h; fixed = k; no_drag = tt }
  step-FixedOk (some mouse_button_pressed) move_up f d h k = record {
    marks = h;
    fixed = k;
    no_drag = tt;
  }
  step-FixedOk (some mouse_button_pressed) move_down f d h k = record {
    marks = h;
    fixed = k;
    no_drag = tt;
  }
  step-FixedOk (some mouse_button_pressed) (mouse_down i x y) f d h k = record {
    marks = h;
    fixed = k;
    no_drag = tt;
  }
  step-FixedOk (some mouse_button_pressed) mouse_up f d h k = released f h k
  step-FixedOk (some mouse_button_pressed) mouse_up_on_item f d h k = released f h k
  step-FixedOk (some mouse_button_pressed) touch_end f d h k = released f h k
  step-FixedOk (some mouse_button_pressed) (mouse_move x y) f d h k =
      subst FixedOk (sym (press_moved_still x y (some mouse_button_pressed) f k))
        (record { marks = h; fixed = k; no_drag = tt })
  step-FixedOk (some reordering) m f d h k = absurd d

  -- In a list that does not allow reordering, so that no drag starts, in a state other than `reordering`,
  -- whatever the keys, the mouse and touches do: each child view stays marked exactly if its item is the
  -- selected one, and the content has no item twice, where that was so before; still no item is dragged.
  pub run-FixedOk : (b : ListView) (ms : List Message) → FixedOk b → FixedOk (run allows b ms)
  unfolding run
  run-FixedOk b [] h = h
  run-FixedOk b (m ∷ ms) h =
      run-FixedOk (step allows b m) ms (step-FixedOk b.current m b.owner h.no_drag h.marks h.fixed)
