-- ===== src/LazyList/Scan.antt =====
-- views/lazy_list_view.js: the loop over the child views of a list that scrolls.
use flame_js.Prelude.{
  ◌⊎◌, ℕ, suc, ◌+◌, ◌≤◌, ◌<◌, ◌≡◌, refl, min, max, true, false, none, some, List, [], ◌∷◌, arith,
  ==_iff, Option-cases, Bool-cases, inl, inr,
}
use flame_js.LazyList.{View, Range, in_range, unused, keep, scan}
use flame_js.LazyList.Pool.{shown}

module _ (r : Range) where
  -- The rows in the range that some view shows are from a up to b.
  unfoldable pub Within : ℕ → ℕ → List View → Type 0
  Within a b vs = (i : ℕ) → in_range r i ≡ true → 0 < shown i vs → (a ≤ i) × (i < b)

  Within-tail : (a b : ℕ) (v : View) (vs : List View) → Within a b (v ∷ vs) → Within a b vs
  unfolding Within shown
  Within-tail a b v vs w i h s = w i h (omega arith)

  Within-head :
      (a b k : ℕ) (v : View) (vs : List View)
      → Within a b (v ∷ vs)
      → v.content_index ≡ some k
      → in_range r k ≡ true
      → (a ≤ k) × (k < b)
  unfolding Within shown
  Within-head a b k v vs w e h = w k h (ground (arith, ==_iff k k))

module _ (class_of : ℕ → ℕ) (r : Range) where
  -- The loop at a view that shows no row or is dragged out of the range, at one in the range, and at one
  -- that is recycled.
  pub scan_aside :
      (v : View)
      → (v.content_index ≡ none)
        ⊎ ((k : ℕ) × (v.content_index ≡ some k) × (in_range r k ≡ false) × (v.is_dragged ≡ true))
      → (p : ℕ) (vs : List View) (pl : List (ℕ × ℕ)) (mn mx : ℕ)
      → scan class_of r p (v ∷ vs) pl mn mx ≡ keep v (scan class_of r (suc p) vs pl mn mx)
  unfolding scan
  scan_aside v (inl e) p vs pl mn mx = ground arith
  scan_aside v (inr (k, e, i, d)) p vs pl mn mx = ground arith

  pub scan_inside :
      (v : View) (k : ℕ)
      → v.content_index ≡ some k
      → in_range r k ≡ true
      → (p : ℕ) (vs : List View) (pl : List (ℕ × ℕ)) (mn mx : ℕ)
      → scan class_of r p (v ∷ vs) pl mn mx
        ≡ keep v (scan class_of r (suc p) vs pl (min mn (suc k)) (max mx k))
  unfolding scan
  scan_inside v k e i p vs pl mn mx = ground arith

  pub scan_outside :
      (v : View) (k : ℕ)
      → v.content_index ≡ some k
      → in_range r k ≡ false
      → v.is_dragged ≡ false
      → (p : ℕ) (vs : List View) (pl : List (ℕ × ℕ)) (mn mx : ℕ)
      → scan class_of r p (v ∷ vs) pl mn mx
        ≡ keep (unused v) (scan class_of r (suc p) vs ((class_of v.item, p) ∷ pl) mn mx)
  unfolding scan
  scan_outside v k e i d p vs pl mn mx = ground arith

  pub shown-scan :
      (i p : ℕ) (vs : List View) (pl : List (ℕ × ℕ)) (mn mx : ℕ)
      → in_range r i ≡ true
      → shown i (scan class_of r p vs pl mn mx).scanned ≡ shown i vs
  unfolding scan shown
  shown-scan i p [] pl mn mx h = refl
  shown-scan i p (v ∷ vs) pl mn mx h = elim (Option-cases v.content_index) [
    | inl e ↦ ground (arith, shown-scan i (suc p) vs pl mn mx h)
    | inr (k, e) ↦ ground (
      arith,
      ==_iff k i,
      shown-scan i (suc p) vs pl mn mx h,
      shown-scan i (suc p) vs ((class_of v.item, p) ∷ pl) mn mx h,
      shown-scan i (suc p) vs pl (min mn (suc k)) (max mx k) h,
    )
  ]

  pub past_min_le :
      (p : ℕ) (vs : List View) (pl : List (ℕ × ℕ)) (mn mx : ℕ)
      → (scan class_of r p vs pl mn mx).past_min ≤ mn
  unfolding scan
  past_min_le p [] pl mn mx = omega arith
  past_min_le p (v ∷ vs) pl mn mx = elim (Option-cases v.content_index) [
    | inl e ↦ ground (arith, past_min_le (suc p) vs pl mn mx)
    | inr (k, e) ↦ ground (
      arith,
      past_min_le (suc p) vs pl mn mx,
      past_min_le (suc p) vs ((class_of v.item, p) ∷ pl) mn mx,
      past_min_le (suc p) vs pl (min mn (suc k)) (max mx k),
    )
  ]

  pub past_min_at :
      (i p : ℕ) (vs : List View) (pl : List (ℕ × ℕ)) (mn mx : ℕ)
      → in_range r i ≡ true
      → 0 < shown i vs
      → (scan class_of r p vs pl mn mx).past_min ≤ i + 1
  unfolding scan shown
  past_min_at i p [] pl mn mx h s = absurd (omega arith)
  past_min_at i p (v ∷ vs) pl mn mx h s = elim (Option-cases v.content_index) [
    | inl e ↦ ground (arith, past_min_at i (suc p) vs pl mn mx h)
    | inr (k, e) ↦ ground (
      arith,
      ==_iff k i,
      past_min_at i (suc p) vs pl mn mx h,
      past_min_at i (suc p) vs ((class_of v.item, p) ∷ pl) mn mx h,
      past_min_at i (suc p) vs pl (min mn (suc k)) (max mx k) h,
      past_min_le (suc p) vs pl (min mn (suc k)) (max mx k),
    )
  ]

  pub max_row_ge :
      (p : ℕ) (vs : List View) (pl : List (ℕ × ℕ)) (mn mx : ℕ)
      → mx ≤ (scan class_of r p vs pl mn mx).max_row
  unfolding scan
  max_row_ge p [] pl mn mx = omega arith
  max_row_ge p (v ∷ vs) pl mn mx = elim (Option-cases v.content_index) [
    | inl e ↦ ground (arith, max_row_ge (suc p) vs pl mn mx)
    | inr (k, e) ↦ ground (
      arith,
      max_row_ge (suc p) vs pl mn mx,
      max_row_ge (suc p) vs ((class_of v.item, p) ∷ pl) mn mx,
      max_row_ge (suc p) vs pl (min mn (suc k)) (max mx k),
    )
  ]

  pub max_row_at :
      (i p : ℕ) (vs : List View) (pl : List (ℕ × ℕ)) (mn mx : ℕ)
      → in_range r i ≡ true
      → 0 < shown i vs
      → i ≤ (scan class_of r p vs pl mn mx).max_row
  unfolding scan shown
  max_row_at i p [] pl mn mx h s = absurd (omega arith)
  max_row_at i p (v ∷ vs) pl mn mx h s = elim (Option-cases v.content_index) [
    | inl e ↦ ground (arith, max_row_at i (suc p) vs pl mn mx h)
    | inr (k, e) ↦ ground (
      arith,
      ==_iff k i,
      max_row_at i (suc p) vs pl mn mx h,
      max_row_at i (suc p) vs ((class_of v.item, p) ∷ pl) mn mx h,
      max_row_at i (suc p) vs pl (min mn (suc k)) (max mx k) h,
      max_row_ge (suc p) vs pl (min mn (suc k)) (max mx k),
    )
  ]

  pub scan-Within :
      (a b p : ℕ) (vs : List View) (pl : List (ℕ × ℕ)) (mn mx : ℕ)
      → Within r a b vs
      → a + 1 ≤ mn
      → mx < b
      → (a + 1 ≤ (scan class_of r p vs pl mn mx).past_min)
        × ((scan class_of r p vs pl mn mx).max_row < b)
  unfolding scan
  scan-Within a b p [] pl mn mx w l u = (l, u)
  scan-Within a b p (v ∷ vs) pl mn mx w l u = elim (Option-cases v.content_index) [
    | inl e ↦ ground (arith, scan-Within a b (suc p) vs pl mn mx (Within-tail r a b v vs w) l u)
    | inr (k, e) ↦ elim (Bool-cases (in_range r k)) [
      | inl i ↦
          let at = Within-head r a b k v vs w e i in
          ground (
            arith,
            at,
            scan-Within a b (suc p) vs pl (min mn (suc k)) (max mx k) (Within-tail r a b v vs w)
                (omega (arith, at)) (omega (arith, at)),
          )
      | inr i ↦ ground (
        arith,
        scan-Within a b (suc p) vs pl mn mx (Within-tail r a b v vs w) l u,
        scan-Within a b (suc p) vs ((class_of v.item, p) ∷ pl) mn mx (Within-tail r a b v vs w) l u,
      )
    ]
  ]
