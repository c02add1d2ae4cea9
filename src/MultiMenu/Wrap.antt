-- ===== src/MultiMenu/Wrap.antt =====
-- views/multiselection_menu_view.js: the highlight that goes around the items.
use native.Mathlib.Nat.{mod-eq_of_lt, mod_self}
use mathlib.Core.Path.{subst}
use flame_js.Prelude.{
  ℕ, zero, suc, ◌+◌, ◌-◌, ◌%◌, ◌≤◌, ◌<◌, ◌≡◌, refl, ap, ◌∙◌, some, List, [], ◌∷◌, arith,
  if◌then◌else◌, Bool-cases, Option-cases, inl, inr, ◌==◌, ==_iff, length, get_elem?,
}
use flame_js.Prelude.Items.{count, NoRepeats}
use flame_js.MultiMenu.{
  MultiMenu, Direction, upward, downward, index_of, wrapped, next_item, highlight_adjacent,
}

unfoldable pub opposite : Direction → Direction
opposite upward = downward
opposite downward = upward

-- The index after i goes around to the first, that before it to the last.
wrapped-downward :
    (n i : ℕ) → i < n → wrapped downward n (some i) ≡ (if i + 1 == n then 0 else i + 1)
unfolding wrapped
wrapped-downward n i l = elim (Bool-cases (i + 1 == n)) [
  | inl e ↦
      rw e (ap (λ k. k % n) {x = i + 1} {y = n} (ground (arith, ==_iff (i + 1) n)) ∙ mod_self n)
  | inr e ↦ rw e (mod-eq_of_lt (ground (arith, ==_iff (i + 1) n)))
]

wrapped-upward : (n i : ℕ) → i < n → wrapped upward n (some i) ≡ (if i == 0 then n - 1 else i - 1)
unfolding wrapped
wrapped-upward n zero l = refl
wrapped-upward n (suc i) l = mod-eq_of_lt (omega arith) ∙ ground arith

wrapped_bound : (d : Direction) (n i : ℕ) → i < n → wrapped d n (some i) < n
wrapped_bound upward n i l = ground (arith, wrapped-upward n i l)
wrapped_bound downward n i l = ground (arith, wrapped-downward n i l, ==_iff (i + 1) n)

wrapped_back :
    (d : Direction) (n i : ℕ) → i < n → wrapped (opposite d) n (some (wrapped d n (some i))) ≡ i
unfolding opposite
wrapped_back upward n i l =
    wrapped-downward n _ (wrapped_bound upward n i l)
    ∙ ground (arith, wrapped-upward n i l, ==_iff (n - 1 + 1) n, ==_iff (i - 1 + 1) n)
wrapped_back downward n i l =
    wrapped-upward n _ (wrapped_bound downward n i l)
    ∙ ground (arith, wrapped-downward n i l, ==_iff (i + 1) n)

get_elem?-index_of :
    (x i : ℕ) (xs : List ℕ) → index_of x xs ≡ some i → (get_elem? xs i ≡ some x) × (i < length xs)
unfolding index_of
get_elem?-index_of x i [] e = absurd cc
get_elem?-index_of x i (y ∷ xs) e = elim (Bool-cases (y == x)) [
  | inl q ↦
      subst (λ k. (get_elem? (y ∷ xs) k ≡ some x) × (k < length (y ∷ xs))) {x = 0} {y = i}
        (ground arith) (ap some (ground (arith, ==_iff y x)), omega arith)
  | inr q ↦ elim (Option-cases (index_of x xs)) [
    | inl r ↦ absurd (ground arith)
    | inr (k, r) ↦
        subst (λ k. (get_elem? (y ∷ xs) k ≡ some x) × (k < length (y ∷ xs))) {x = suc k} {y = i}
          (ground arith) (let at = get_elem?-index_of x k xs r in (at.0, omega (arith, at)))
  ]
]

get_elem?-count : (xs : List ℕ) (i : ℕ) {x : ℕ} → get_elem? xs i ≡ some x → 0 < count x xs
get_elem?-count [] i e = absurd cc
get_elem?-count (y ∷ xs) zero {x} e = ground (arith, ==_iff y x)
get_elem?-count (y ∷ xs) (suc i) {x} e = omega (get_elem?-count xs i {x = x} e, arith)

index_of-get_elem? :
    (x i : ℕ) (xs : List ℕ) → count x xs ≤ 1 → get_elem? xs i ≡ some x → index_of x xs ≡ some i
unfolding index_of
index_of-get_elem? x i [] u e = absurd cc
index_of-get_elem? x zero (y ∷ xs) u e = ground (arith, ==_iff y x)
index_of-get_elem? x (suc i) (y ∷ xs) u e =
    ground (arith, index_of-get_elem? x i xs, get_elem?-count xs i {x = x} e)

get_elem?-some : (xs : List ℕ) (i : ℕ) → i < length xs → (x : ℕ) × (get_elem? xs i ≡ some x)
get_elem?-some [] i l = absurd (omega arith)
get_elem?-some (x ∷ xs) zero l = (x, refl)
get_elem?-some (x ∷ xs) (suc i) l = get_elem?-some xs i (omega arith)

-- With an item of the list highlighted and no item twice, an arrow key and the opposite one lead back to
-- the same item, around the ends of the list too.
pub highlight_adjacent_back :
    (d : Direction) (m : MultiMenu) (x i : ℕ)
    → NoRepeats m.items
    → m.highlighted ≡ some x
    → index_of x m.items ≡ some i
    → highlight_adjacent (opposite d) (highlight_adjacent d m) ≡ m
unfolding highlight_adjacent next_item
highlight_adjacent_back d m x i once high at =
    let (is_x, bound) = get_elem?-index_of x i m.items at in
    let k = wrapped d (length m.items) (some i) in
    let (y, is_y) = get_elem?-some m.items k (wrapped_bound d (length m.items) i bound) in
    let back = index_of-get_elem? y k m.items (once y) is_y in
    ground (arith, high, at, is_x, is_y, back, wrapped_back d (length m.items) i bound)
