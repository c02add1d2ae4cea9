-- ===== src/LazyList/Recycling.antt =====
-- views/lazy_list_view.js: that recycling views as the list scrolls keeps the pool in order.
use mathlib.Core.Path.{subst}
use flame_js.Prelude.{
  ℕ, zero, suc, ◌+◌, ◌≤◌, ◌<◌, ◌≡◌, refl, sym, min, max, none, some, List, [], ◌∷◌, arith, ==_iff,
  ltb, Option-cases, Bool-cases, inl, inr,
}
use flame_js.Prelude.Items.{count}
use flame_js.LazyList.{View, Range, in_range, unused, Scanned, scan}
use flame_js.LazyList.Scan.{scan_aside, scan_inside, scan_outside}
use flame_js.LazyList.Pool.{places, index_at, PoolOk}

-- At each place of the child views from p on: a pooled view is there once and shows no row.
pub record PoolAt (p : ℕ) (vs : List View) (pl : List (ℕ × ℕ)) : Type 0 where
  pub idle : (q k : ℕ) → q ≡ p + k → 0 < count q (places pl) → index_at vs k ≡ some none
  pub once : (q : ℕ) → count q (places pl) ≤ 1

-- The loop keeps the view at p, or recycles it, and goes on with the pool then.
pub PoolAt-tail :
    (p : ℕ) (v : View) (vs : List View) (pl : List (ℕ × ℕ))
    → PoolAt p (v ∷ vs) pl
    → PoolAt (suc p) vs pl
unfolding index_at
PoolAt-tail p v vs pl ok = record {
  idle = λ q k e h. ok.idle q (suc k) (omega arith) h;
  once = ok.once;
}

pub PoolAt-absent :
    (p : ℕ) (v : View) (vs : List View) (pl : List (ℕ × ℕ)) {i : ℕ}
    → v.content_index ≡ some i
    → PoolAt p (v ∷ vs) pl
    → count p (places pl) ≡ 0
unfolding index_at
PoolAt-absent p v vs pl e ok = elim (Bool-cases (ltb 0 (count p (places pl)))) [
  | inl l ↦ absurd (ground (arith, ok.idle p 0))
  | inr l ↦ ground arith
]

pub PoolAt-recycled :
    (p c : ℕ) (v : View) (vs : List View) (pl : List (ℕ × ℕ)) {i : ℕ}
    → v.content_index ≡ some i
    → PoolAt p (v ∷ vs) pl
    → PoolAt (suc p) vs ((c, p) ∷ pl)
unfolding index_at
PoolAt-recycled p c v vs pl e ok = record {
  idle = λ q k e h. ok.idle q (suc k) (omega arith) (ground (arith, h, ==_iff p q));
  once = λ q. ground (arith, ok.once q, ==_iff p q, PoolAt-absent p v vs pl e ok);
}

pub PoolAt-keep :
    (p : ℕ) (v : View) (vs rest : List View) (pl new : List (ℕ × ℕ))
    → PoolAt p (v ∷ vs) pl
    → count p (places new) ≡ count p (places pl)
    → PoolAt (suc p) rest new
    → PoolAt p (v ∷ rest) new
unfolding index_at
PoolAt-keep p v vs rest pl new ok e more = record { idle = idle; once = more.once }
  where
    idle : (q k : ℕ) → q ≡ p + k → 0 < count q (places new) → index_at (v ∷ rest) k ≡ some none
    idle q zero at h = ok.idle p 0 (omega arith) (ground (arith, h, e, at))
    idle q (suc k) at h = more.idle q k (omega (arith, at)) h

pub PoolAt-unused :
    (p : ℕ) (v : View) (rest : List View) (new : List (ℕ × ℕ))
    → PoolAt (suc p) rest new
    → PoolAt p (unused v ∷ rest) new
unfolding index_at
PoolAt-unused p v rest new more = record { idle = idle; once = more.once }
  where
    idle :
        (q k : ℕ) → q ≡ p + k → 0 < count q (places new) → index_at (unused v ∷ rest) k ≡ some none
    idle q zero at h = refl
    idle q (suc k) at h = more.idle q k (omega (arith, at)) h

module _ (class_of : ℕ → ℕ) (r : Range) where
  scan-before :
      (p q : ℕ) (vs : List View) (pl : List (ℕ × ℕ)) (mn mx : ℕ)
      → q < p
      → count q (places (scan class_of r p vs pl mn mx).pool) ≡ count q (places pl)
  unfolding scan
  scan-before p q [] pl mn mx l = refl
  scan-before p q (v ∷ vs) pl mn mx l = elim (Option-cases v.content_index) [
    | inl e ↦ ground (arith, scan-before (suc p) q vs pl mn mx)
    | inr (k, e) ↦ ground (
      arith,
      ==_iff p q,
      scan-before (suc p) q vs pl mn mx,
      scan-before (suc p) q vs ((class_of v.item, p) ∷ pl) mn mx,
      scan-before (suc p) q vs pl (min mn (suc k)) (max mx k),
    )
  ]

  PoolAfter : ℕ → Scanned → Type 0
  PoolAfter p s = PoolAt p s.scanned s.pool

  kept_on :
      (p : ℕ) (v : View) (vs : List View) (pl : List (ℕ × ℕ)) (mn mx : ℕ)
      → PoolAt p (v ∷ vs) pl
      → PoolAfter (suc p) (scan class_of r (suc p) vs pl mn mx)
      → let s = scan class_of r (suc p) vs pl mn mx in PoolAt p (v ∷ s.scanned) s.pool
  unfolding PoolAfter
  kept_on p v vs pl mn mx ok more =
      PoolAt-keep p v vs _ pl _ ok (scan-before (suc p) p vs pl mn mx (omega arith)) more

  scan-PoolAfter :
      (p : ℕ) (vs : List View) (pl : List (ℕ × ℕ)) (mn mx : ℕ)
      → PoolAt p vs pl
      → PoolAfter p (scan class_of r p vs pl mn mx)
  unfolding scan PoolAfter
  scan-PoolAfter p [] pl mn mx ok = ok
  scan-PoolAfter p (v ∷ vs) pl mn mx ok = elim (Option-cases v.content_index) [
    | inl e ↦
        subst (PoolAfter p) (sym (scan_aside class_of r v (inl e) p vs pl mn mx)) (
          kept_on p v vs pl mn mx ok
            (scan-PoolAfter (suc p) vs pl mn mx (PoolAt-tail p v vs pl ok)))
    | inr (k, e) ↦ elim (Bool-cases (in_range r k)) [
      | inl i ↦ subst (PoolAfter p) (sym (scan_inside class_of r v k e i p vs pl mn mx)) (
          kept_on p v vs pl (min mn (suc k)) (max mx k) ok
            (scan-PoolAfter (suc p) vs pl (min mn (suc k)) (max mx k) (PoolAt-tail p v vs pl ok)))
      | inr i ↦ elim (Bool-cases v.is_dragged) [
        | inl d ↦
            subst (PoolAfter p) (sym (scan_aside class_of r v (inr (k, e, i, d)) p vs pl mn mx)) (
              kept_on p v vs pl mn mx ok
                (scan-PoolAfter (suc p) vs pl mn mx (PoolAt-tail p v vs pl ok)))
        | inr d ↦ subst (PoolAfter p) (sym (scan_outside class_of r v k e i d p vs pl mn mx)) (
            PoolAt-unused p v _ _ (
              scan-PoolAfter (suc p) vs ((class_of v.item, p) ∷ pl) mn mx
                (PoolAt-recycled p (class_of v.item) v vs pl e ok)))
      ]
    ]
  ]

  -- Recycling the views that leave the range keeps the pool in order.
  pub scan-PoolOk :
      (vs : List View) (pl : List (ℕ × ℕ)) (mn mx : ℕ)
      → PoolOk vs pl
      → let s = scan class_of r 0 vs pl mn mx in PoolOk s.scanned s.pool
  unfolding PoolAfter
  scan-PoolOk vs pl mn mx ok =
      let at : PoolAfter 0 (scan class_of r 0 vs pl mn mx) =
        scan-PoolAfter 0 vs pl mn mx
          (record { idle = λ q k e h. ground (arith, ok.idle q, e); once = ok.once }) in
      record { idle = λ q h. at.idle q q (omega arith) h; once = at.once }
