-- ===== src/LazyList/Selecting.antt =====
-- views/lazy_list_view.js: what the arrow keys select.
use flame_js.Prelude.{
  ℕ, zero, suc, ◌+◌, ◌-◌, ◌≡◌, refl, true, false, none, some, List, ◌∷◌, arith, length, get_elem?,
  if◌then◌else◌, ltb,
}
use flame_js.LazyList.{LazyList, select_index, select_down, selected_row, next_selection}

select_down_on :
    (i n : ℕ) (l : LazyList)
    → select_down true i n l
      ≡ (if ltb 0 n then (record l { selection = get_elem? l.content i }, true) else (l, false))
unfolding select_down select_index
select_down_on i zero l = refl
select_down_on i (suc n) l = ground arith

-- Where selection is allowed, `changeSelection(1)` selects the item after the selected one, and at the end
-- of the list does nothing.
pub next_selection_lem :
    (l : LazyList)
    → next_selection true l ≡ (
        if ltb (selected_row l + 1) (length l.content)
        then (record l { selection = get_elem? l.content (selected_row l + 1) }, true)
        else (l, false))
unfolding next_selection
next_selection_lem l =
    ground (arith, select_down_on (selected_row l + 1) (length l.content - (selected_row l + 1)) l)

-- Where selection is allowed and nothing is selected in a list of two items or more,
-- `changeSelection(1)` selects the second item and not the first.
pub next_selection_second :
    (l : LazyList) (x y : ℕ) (rest : List ℕ)
    → l.selection ≡ none
    → l.content ≡ x ∷ y ∷ rest
    → (next_selection true l).0.selection ≡ some y
unfolding selected_row
next_selection_second l x y rest none_selected items = ground (arith, next_selection_lem l)
