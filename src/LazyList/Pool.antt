-- ===== src/LazyList/Pool.antt =====
-- views/lazy_list_view.js: that recycled views show no row, and what a view put to use changes.
use mathlib.Core.Path.{subst}
use flame_js.Prelude.{
  length-get_elem?, ℕ, zero, suc, ◌+◌, ◌≤◌, ◌<◌, ◌≡◌, ◌≢◌, refl, sym, ap, ◌∙◌, Option, none, some,
  List, [], ◌∷◌, ◌++◌, arith, if◌then◌else◌, ◌==◌, ==_iff, length, get_elem?, set, Option-cases,
  inl, inr,
}
use flame_js.Prelude.Items.{count}
use flame_js.LazyList.{View, LazyList, pop_class, show_item, view_for_row}

abbrev pub hit : ℕ → Option ℕ → ℕ
hit r none = 0
hit r (some i) = if i == r then 1 else 0

-- How many views show a row.
unfoldable pub shown : ℕ → List View → ℕ
shown r [] = 0
shown r (v ∷ vs) = hit r v.content_index + shown r vs

abbrev pub places : List (ℕ × ℕ) → List ℕ
places [] = []
places ((c, p) ∷ rest) = p ∷ places rest

unfoldable pub index_at : List View → ℕ → Option (Option ℕ)
index_at [] p = none
index_at (v ∷ vs) zero = some v.content_index
index_at (v ∷ vs) (suc p) = index_at vs p

-- The recycled views are there, show no row, and are different.
pub record PoolOk (views : List View) (pool : List (ℕ × ℕ)) : Type 0 where
  pub idle : (p : ℕ) → 0 < count p (places pool) → index_at views p ≡ some none
  pub once : (p : ℕ) → count p (places pool) ≤ 1

shown-append :
    (r : ℕ) (xs : List View) (v : View)
    → shown r (xs ++ v ∷ []) ≡ shown r xs + hit r v.content_index
unfolding shown
shown-append r [] v = omega arith
shown-append r (x ∷ xs) v = omega (arith, shown-append r xs v)

shown-set :
    (r : ℕ) (xs : List View) (p : ℕ) (v : View)
    → index_at xs p ≡ some none
    → shown r (set xs p v) ≡ shown r xs + hit r v.content_index
unfolding shown index_at
shown-set r [] p v e = absurd cc
shown-set r (x ∷ xs) zero v e = ground arith
shown-set r (x ∷ xs) (suc p) v e = omega (arith, shown-set r xs p v e)

index_at-append :
    (xs : List View) (v : View) (p : ℕ) {o : Option ℕ}
    → index_at xs p ≡ some o
    → index_at (xs ++ v ∷ []) p ≡ some o
unfolding index_at
index_at-append [] v p e = absurd cc
index_at-append (x ∷ xs) v zero e = e
index_at-append (x ∷ xs) v (suc p) e = index_at-append xs v p e

index_at-set :
    (xs : List View) (v : View) (p q : ℕ) → p ≢ q → index_at (set xs p v) q ≡ index_at xs q
unfolding index_at
index_at-set [] v p q ne = refl
index_at-set (x ∷ xs) v zero zero ne = absurd (ne refl)
index_at-set (x ∷ xs) v zero (suc q) ne = refl
index_at-set (x ∷ xs) v (suc p) zero ne = refl
index_at-set (x ∷ xs) v (suc p) (suc q) ne = index_at-set xs v p q (λ e. ne (ap suc e))

count-pop_class :
    (c : ℕ) (pool : List (ℕ × ℕ)) {p : ℕ} {rest : List (ℕ × ℕ)}
    → pop_class c pool ≡ some (p, rest)
    → (q : ℕ) → count q (places pool) ≡ (if p == q then 1 else 0) + count q (places rest)
unfolding pop_class
count-pop_class c [] e q = absurd cc
count-pop_class c ((d, s) ∷ pool) e q = elim (Option-cases (pop_class c pool)) [
  | inl h ↦ ground arith
  | inr (x, h) ↦ ground (arith, count-pop_class c pool {p = x.0} {rest = x.1} h q)
]

shown-show_item :
    (r row item c : ℕ) (s : LazyList) (popped : Option (ℕ × List (ℕ × ℕ)))
    → PoolOk s.views s.pool
    → pop_class c s.pool ≡ popped
    → shown r (show_item row item s popped).views ≡ shown r s.views + (if row == r then 1 else 0)
unfolding show_item
shown-show_item r row item c s none ok e = shown-append r s.views _
shown-show_item r row item c s (some (p, rest)) ok e =
    shown-set r s.views p _ (ok.idle p (ground (arith, count-pop_class c s.pool e p, ==_iff p p)))

show_item-PoolOk :
    (row item c : ℕ) (s : LazyList) (popped : Option (ℕ × List (ℕ × ℕ)))
    → PoolOk s.views s.pool
    → pop_class c s.pool ≡ popped
    → let after = show_item row item s popped in PoolOk after.views after.pool
unfolding show_item
show_item-PoolOk row item c s none ok e = record {
  idle = λ p h. index_at-append s.views _ p (ok.idle p h);
  once = ok.once;
}
show_item-PoolOk row item c s (some (p, rest)) ok e = record {
  idle = λ q h.
      index_at-set s.views _ p q
        (λ pq. absurd (ground (arith, ok.once q, count-pop_class c s.pool e q, ==_iff p q)))
      ∙ ok.idle q (omega (arith, count-pop_class c s.pool e q));
  once = λ q. omega (arith, ok.once q, count-pop_class c s.pool e q);
}

content-show_item :
    (row item : ℕ) (s : LazyList) (popped : Option (ℕ × List (ℕ × ℕ)))
    → (show_item row item s popped).content ≡ s.content
unfolding show_item
content-show_item row item s none = refl
content-show_item row item s (some (p, rest)) = refl

-- A row of the list is shown by one view more, and recycled views stay unused.
pub record Shows (row : ℕ) (s after : LazyList) : Type 0 where
  pub more : (r : ℕ) → shown r after.views ≡ shown r s.views + (if row == r then 1 else 0)
  pub ok : PoolOk after.views after.pool
  pub same_content : after.content ≡ s.content

module _ (class_of : ℕ → ℕ) where
  pub view_for_row-Shows :
      (row : ℕ) (s : LazyList)
      → row < length s.content
      → PoolOk s.views s.pool
      → Shows row s (view_for_row class_of row s)
  unfolding view_for_row
  view_for_row-Shows row s l ok = elim (Option-cases (get_elem? s.content row)) [
    | inl e ↦ absurd (omega (arith, length-get_elem? s.content row e))
    | inr (item, e) ↦
        let popped = pop_class (class_of item) s.pool in
        subst (Shows row s)
          (sym (
            ap
              (λ o. elim o as (λ _. LazyList) [
                | none ↦ s
                | some x ↦ show_item row x s (pop_class (class_of x) s.pool)
              ])
              e))
          (record {
            more = λ r. shown-show_item r row item (class_of item) s popped ok refl;
            ok = show_item-PoolOk row item (class_of item) s popped ok refl;
            same_content = content-show_item row item s popped;
          })
  ]
