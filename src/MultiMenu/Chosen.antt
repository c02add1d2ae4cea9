-- ===== src/MultiMenu/Chosen.antt =====
-- views/multiselection_menu_view.js: what is chosen.
use mathlib.Core.Path.{ap₂}
use mathlib.Core.List.{append-nil}
use flame_js.Prelude.{
  ℕ, ◌+◌, ◌<◌, ◌≡◌, refl, ap, ◌∙◌, List, [], ◌∷◌, ◌++◌, arith, Option-cases, inl, inr, ==_iff, ltb,
  length, length-append,
}
use flame_js.Prelude.Items.{count, count-append, count-without, NoRepeats, without}
use flame_js.MultiMenu.{
  Choice, one, all, MultiMenu, contains, choose, select_highlighted, highlight_adjacent, MenuEvent,
  move, enter, mouse_enter, mouse_leave, click, handle, handle_all,
}

contains-count : (x : ℕ) (xs : List ℕ) → contains x xs ≡ ltb 0 (count x xs)
unfolding contains
contains-count x [] = refl
contains-count x (y ∷ ys) = ground (arith, contains-count x ys)

length-without : (x : ℕ) (xs : List ℕ) → length (without x xs) + count x xs ≡ length xs
length-without x [] = omega arith
length-without x (y ∷ ys) = ground (arith, length-without x ys)

without-absent : (x : ℕ) (xs : List ℕ) → count x xs ≡ 0 → without x xs ≡ xs
without-absent x [] h = refl
without-absent x (y ∷ ys) h = ground (arith, without-absent x ys)

without-append : (x : ℕ) (xs ys : List ℕ) → without x (xs ++ ys) ≡ without x xs ++ without x ys
without-append x [] ys = refl
without-append x (z ∷ xs) ys = ground (arith, without-append x xs ys)

-- Something is chosen, and nothing twice.
pub record IsChosen (value : List ℕ) : Type 0 where
  pub some_value : 0 < length value
  pub no_repeats : NoRepeats value

unfoldable pub GoodChoice : Choice → Type 0
GoodChoice (one v) = Unit {0}
GoodChoice (all vs) = IsChosen vs

module _ (value_of : ℕ → Choice) (remove_object : ℕ → List ℕ → List ℕ)
    (removes : (x : ℕ) (xs : List ℕ) → remove_object x xs ≡ without x xs)
    (good : (x : ℕ) → GoodChoice (value_of x)) where
  choose-IsChosen :
      (c : Choice) (value : List ℕ)
      → GoodChoice c
      → IsChosen value
      → IsChosen (choose value_of remove_object c value)
  unfolding choose GoodChoice
  choose-IsChosen (all vs) value g h = g
  choose-IsChosen (one v) value g h = record {
    some_value = ground (
      arith,
      h.some_value,
      h.no_repeats v,
      length-append value (v ∷ []),
      removes v value,
      length-without v value,
    );
    no_repeats = λ a. ground (
      arith,
      h.no_repeats a,
      count-append a value (v ∷ []),
      contains-count v value,
      removes v value,
      count-without a v value,
      ==_iff v a,
    );
  }

  handle-IsChosen :
      (m : MultiMenu) (e : MenuEvent)
      → IsChosen m.value
      → IsChosen (handle value_of remove_object m e).value
  unfolding handle select_highlighted highlight_adjacent
  handle-IsChosen m (move d) h = h
  handle-IsChosen m enter h = elim (Option-cases m.highlighted) [
    | inl e ↦ rw e h
    | inr (x, e) ↦ rw e (choose-IsChosen (value_of x) m.value (good x) h)
  ]
  handle-IsChosen m (mouse_enter x) h = h
  handle-IsChosen m mouse_leave h = h
  handle-IsChosen m (click x) h = choose-IsChosen (value_of x) m.value (good x) h

  -- Whatever keys and clicks come, something stays chosen, and nothing is chosen twice, where that holds
  -- of the values that were chosen before and of the arrays that items stand for.
  pub handle_all-IsChosen :
      (m : MultiMenu) (es : List MenuEvent)
      → IsChosen m.value
      → IsChosen (handle_all value_of remove_object m es).value
  unfolding handle_all
  handle_all-IsChosen m [] h = h
  handle_all-IsChosen m (e ∷ es) h =
      handle_all-IsChosen (handle value_of remove_object m e) es (handle-IsChosen m e h)

  choose-new :
      (v : ℕ) (value : List ℕ)
      → count v value ≡ 0
      → choose value_of remove_object (one v) value ≡ value ++ v ∷ []
  unfolding choose
  choose-new v value absent = ground (arith, contains-count v value)

  choose-again :
      (v : ℕ) (value : List ℕ)
      → count v value ≡ 0
      → 0 < length value
      → choose value_of remove_object (one v) (value ++ v ∷ []) ≡ value
  unfolding choose
  choose-again v value absent some_value = ground (
    arith,
    contains-count v (value ++ v ∷ []),
    count-append v value (v ∷ []),
    length-append value (v ∷ []),
    removes v (value ++ v ∷ []),
    back,
    ==_iff v v,
  )
    where
      back : without v (value ++ v ∷ []) ≡ value
      back =
          without-append v value (v ∷ [])
          ∙ ap₂ (λ a b. a ++ b) (without-absent v value absent) (ground (arith, ==_iff v v))
          ∙ append-nil value

  -- Two clicks on an item whose value is not chosen leave the choice as it was.
  pub click_twice :
      (m : MultiMenu) (x v : ℕ)
      → value_of x ≡ one v
      → 0 < length m.value
      → count v m.value ≡ 0
      → (handle_all value_of remove_object m (click x ∷ click x ∷ [])).value ≡ m.value
  unfolding handle_all handle select_highlighted
  click_twice m x v e some_value absent =
      ap (λ c. choose value_of remove_object c (choose value_of remove_object c m.value)) e
      ∙ ap (choose value_of remove_object (one v)) (choose-new v m.value absent)
      ∙ choose-again v m.value absent some_value
