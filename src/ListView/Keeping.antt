-- ===== src/ListView/Keeping.antt =====
-- views/list_view.js: what selecting leaves as it is.
use flame_js.Prelude.{
  ℕ, zero, suc, ◌-◌, ◌≡◌, refl, ap, ◌∙◌, Bool, true, false, Option, none, some, length, get_elem?,
  if_keeps, cases_keep,
}
use flame_js.ListView.{
  Fields, place_of, set_is_selected_status, set_selection, same_item, selectable, select_index,
  select_down, select_up, selected_place, select_next, select_previous, select_item,
}

-- Selecting changes the children and the selection only.
unfoldable pub Kept : Fields → Fields → Type 0
Kept f g = g ≡ record f { children = g.children; selection = g.selection }

Kept-trans : (f g h : Fields) → Kept f g → Kept g h → Kept f h
unfolding Kept
Kept-trans f g h e e' =
    e' ∙ ap (λ (x : Fields). record x { children = h.children; selection = h.selection }) e

set_is_selected_status-Kept :
    (o : Option ℕ) (status : Bool) (f : Fields) → Kept f (set_is_selected_status o status f)
unfolding Kept set_is_selected_status
set_is_selected_status-Kept none status f = refl
set_is_selected_status-Kept (some x) status f =
    cases_keep (Kept f) (place_of x f.content) (λ _. refl) (λ i _. refl)

pub set_selection-Kept : (o : Option ℕ) (f : Fields) → Kept f (set_selection o f)
unfolding Kept set_selection
set_selection-Kept o f =
    if_keeps (Kept f) (same_item f.selection o) (λ _. refl)
      (λ _.
        let before = set_is_selected_status f.selection false f in
        let chosen = record before { selection = o } in
        Kept-trans f chosen _
          (ap (λ (x : Fields). record x { selection = o })
            (set_is_selected_status-Kept f.selection false f))
          (set_is_selected_status-Kept o true chosen))

select_index-Kept : (i : ℕ) (f : Fields) → Kept f (select_index i f).0
unfolding Kept select_index
select_index-Kept i f =
    if_keeps (λ (r : Fields × Bool). Kept f r.0) (selectable f i)
      (λ _. set_selection-Kept (get_elem? f.content i) f) (λ _. refl)

select_down-Kept : (i n : ℕ) (f : Fields) → Kept f (select_down i n f).0
unfolding Kept select_down
select_down-Kept i zero f = refl
select_down-Kept i (suc n) f =
    if_keeps (λ (r : Fields × Bool). Kept f r.0) (select_index i f).1 (λ _. select_index-Kept i f)
      (λ _. select_down-Kept (suc i) n f)

select_up-Kept : (i : ℕ) (f : Fields) → Kept f (select_up i f).0
unfolding Kept select_up
select_up-Kept zero f = refl
select_up-Kept (suc i) f =
    if_keeps (λ (r : Fields × Bool). Kept f r.0) (select_index i f).1 (λ _. select_index-Kept i f)
      (λ _. select_up-Kept i f)

pub select_next-Kept : (f : Fields) → Kept f (select_next f).0
unfolding select_next
select_next-Kept f =
    cases_keep (λ (r : Fields × Bool). Kept f r.0) (selected_place f)
      (λ _. select_down-Kept 0 (length f.content) f)
      (λ i _. select_down-Kept (suc i) (length f.content - suc i) f)

pub select_previous-Kept : (f : Fields) → Kept f (select_previous f).0
unfolding Kept select_previous
select_previous-Kept f =
    cases_keep (λ (r : Fields × Bool). Kept f r.0) (selected_place f) (λ _. refl)
      (λ i _. select_up-Kept i f)

pub select_item-Kept : (i : Option ℕ) (f : Fields) → Kept f (select_item i f)
unfolding Kept
select_item-Kept none f = refl
select_item-Kept (some i) f = select_index-Kept i f
