-- ===== src/ListView/Choosing.antt =====
-- views/list_view.js: which item the arrow keys select, and which child view shows it.
use mathlib.Core.Path.{subst}
use flame_js.Prelude.{
  ℕ, zero, suc, ◌+◌, ◌-◌, ◌≤◌, ◌<◌, ◌≡◌, refl, sym, Bool, true, false, Option, none, some, List, [],
  ◌∷◌, arith, Bool-cases, Option-cases, inl, inr, length, get_elem?, ◌==◌, ==_iff,
}
use flame_js.ListView.{
  Fields, place_of, set_selection, selectable, select_index, select_down, selected_place,
  select_next,
}

-- What a search over the places from i up to `stop` leaves: the first selectable item is selected, or
-- there is none and nothing changes.
pub data Chosen (f : Fields) (i stop : ℕ) (r : Fields × Bool) : Type 0 where
  chosen :
      (k : ℕ)
      → i ≤ k
      → k < stop
      → selectable f k ≡ true
      → ((j : ℕ) → i ≤ j → j < k → selectable f j ≡ false)
      → r ≡ (set_selection (get_elem? f.content k) f, true)
      → Chosen f i stop r
  nothing :
      ((j : ℕ) → i ≤ j → j < stop → selectable f j ≡ false) → r ≡ (f, false) → Chosen f i stop r

module _ (f : Fields) where
  -- One place more that is not selectable.
  none_before :
      (i k : ℕ)
      → selectable f i ≡ false
      → ((j : ℕ) → suc i ≤ j → j < k → selectable f j ≡ false)
      → (j : ℕ) → i ≤ j
      → j < k
      → selectable f j ≡ false
  none_before i k e h j le lt = elim (Bool-cases (i == j)) [
    | inl t ↦ ground (arith, t, e, ==_iff i j)
    | inr t ↦ h j (ground (arith, t, le)) lt
  ]

  Chosen-skip :
      (i stop : ℕ) (r : Fields × Bool)
      → selectable f i ≡ false
      → Chosen f (suc i) stop r
      → Chosen f i stop r
  Chosen-skip i stop r e (chosen k le lt t before q) =
      chosen k (omega (arith, le)) lt t (none_before i k e before) q
  Chosen-skip i stop r e (nothing none_left q) = nothing (none_before i stop e none_left) q

  select_index_on :
      (i : ℕ)
      → selectable f i ≡ true
      → select_index i f ≡ (set_selection (get_elem? f.content i) f, true)
  unfolding select_index
  select_index_on i t = ground (arith, t)

  select_index_off : (i : ℕ) → selectable f i ≡ false → select_index i f ≡ (f, false)
  unfolding select_index
  select_index_off i t = ground (arith, t)

  select_down-here :
      (i n : ℕ)
      → selectable f i ≡ true
      → select_down i (suc n) f ≡ (set_selection (get_elem? f.content i) f, true)
  unfolding select_down
  select_down-here i n t = ground (arith, select_index_on i t)

  select_down-on :
      (i n : ℕ) → selectable f i ≡ false → select_down i (suc n) f ≡ select_down (suc i) n f
  unfolding select_down
  select_down-on i n t = ground (arith, select_index_off i t)

  select_down-Chosen : (i n : ℕ) → Chosen f i (i + n) (select_down i n f)
  unfolding select_down
  select_down-Chosen i zero = nothing (λ j le lt. absurd (omega (arith, le, lt))) refl
  select_down-Chosen i (suc n) = elim (Bool-cases (selectable f i)) [
    | inl t ↦
        chosen i (omega arith) (omega arith) t (λ j le lt. absurd (omega (arith, le, lt)))
          (select_down-here i n t)
    | inr t ↦ subst (Chosen f i (i + suc n)) (sym (select_down-on i n t)) (
        Chosen-skip i (i + suc n) _ t (
          subst (λ s. Chosen f (suc i) s (select_down (suc i) n f)) (omega arith)
            (select_down-Chosen (suc i) n)))
  ]

place_of-length : (x : ℕ) (ys : List ℕ) (i : ℕ) → place_of x ys ≡ some i → i < length ys
unfolding place_of
place_of-length x [] i e = ground (arith, e)
place_of-length x (y ∷ ys) i e = elim (Option-cases (place_of x ys)) [
  | inl q ↦ ground (arith, e, q)
  | inr (k, q) ↦ ground (arith, e, q, place_of-length x ys k q)
]

selected_place-length : (f : Fields) (i : ℕ) → selected_place f ≡ some i → i < length f.content
selected_place-length f i e = elim (Option-cases f.selection) [
  | inl q ↦ absurd (ground (arith, e, q))
  | inr (x, q) ↦ place_of-length x f.content i (ground (arith, e, q))
]

-- The place after the selected item, or the first one.
abbrev pub after : Option ℕ → ℕ
after none = 0
after (some i) = suc i

after-Chosen :
    (f : Fields) (o : Option ℕ)
    → ((i : ℕ) → o ≡ some i → i < length f.content)
    → Chosen f (after o) (length f.content) (elim o as (λ _. Fields × Bool) [
      | none ↦ select_down 0 (length f.content) f
      | some i ↦ select_down (suc i) (length f.content - suc i) f
    ])
after-Chosen f none h =
    subst (λ s. Chosen f 0 s (select_down 0 (length f.content) f)) (omega arith)
      (select_down-Chosen f 0 (length f.content))
after-Chosen f (some i) h =
    let n = length f.content - suc i in
    subst (λ s. Chosen f (suc i) s (select_down (suc i) n f)) (omega (arith, h i refl))
      (select_down-Chosen f (suc i) n)

-- The down key selects the first item after the selected one, or the first of all where none is, that is
-- visible and may be selected, and it tells that it did; where there is no such item, nothing changes.
pub select_next-Chosen :
    (f : Fields) → Chosen f (after (selected_place f)) (length f.content) (select_next f)
unfolding select_next
select_next-Chosen f = after-Chosen f (selected_place f) (selected_place-length f)
