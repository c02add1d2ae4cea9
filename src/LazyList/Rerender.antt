-- ===== src/LazyList/Rerender.antt =====
-- views/lazy_list_view.js: the rows that are shown after a full rerender.
use mathlib.Core.Path.{subst}
use flame_js.Prelude.{
  ℕ, suc, ◌<◌, ◌≡◌, refl, sym, none, some, List, [], ◌∷◌, arith, ==_iff, Option-cases, inl, inr,
}
use flame_js.Prelude.Items.{count}
use flame_js.LazyList.{View, unused, recycle_all}
use flame_js.LazyList.Pool.{shown, places, PoolOk}
use flame_js.LazyList.Recycling.{PoolAt, PoolAt-tail, PoolAt-keep, PoolAt-unused, PoolAt-recycled}

module _ (class_of : ℕ → ℕ) where
  -- No view shows a row.
  pub shown-recycle_all :
      (i p : ℕ) (vs : List View) (pl : List (ℕ × ℕ)) → shown i (recycle_all class_of p vs pl).0 ≡ 0
  unfolding recycle_all shown
  shown-recycle_all i p [] pl = refl
  shown-recycle_all i p (v ∷ vs) pl = elim (Option-cases v.content_index) [
    | inl e ↦ ground (arith, shown-recycle_all i (suc p) vs pl)
    | inr (k, e) ↦ ground (arith, shown-recycle_all i (suc p) vs ((class_of v.item, p) ∷ pl))
  ]

  recycle_all-before :
      (p q : ℕ) (vs : List View) (pl : List (ℕ × ℕ))
      → q < p
      → count q (places (recycle_all class_of p vs pl).1) ≡ count q (places pl)
  unfolding recycle_all
  recycle_all-before p q [] pl l = refl
  recycle_all-before p q (v ∷ vs) pl l = elim (Option-cases v.content_index) [
    | inl e ↦ ground (arith, recycle_all-before (suc p) q vs pl)
    | inr (k, e) ↦
        ground (arith, ==_iff p q, recycle_all-before (suc p) q vs ((class_of v.item, p) ∷ pl))
  ]

  PoolLeft : ℕ → List View × List (ℕ × ℕ) → Type 0
  PoolLeft p s = PoolAt p s.0 s.1

  recycle_all_aside :
      (v : View)
      → v.content_index ≡ none
      → (p : ℕ) (vs : List View) (pl : List (ℕ × ℕ))
      → recycle_all class_of p (v ∷ vs) pl
        ≡ (v ∷ (recycle_all class_of (suc p) vs pl).0, (recycle_all class_of (suc p) vs pl).1)
  unfolding recycle_all
  recycle_all_aside v e p vs pl = ground arith

  recycle_all-unused :
      (v : View) (k : ℕ)
      → v.content_index ≡ some k
      → (p : ℕ) (vs : List View) (pl : List (ℕ × ℕ))
      → recycle_all class_of p (v ∷ vs) pl ≡ (
          let s = recycle_all class_of (suc p) vs ((class_of v.item, p) ∷ pl) in
          (unused v ∷ s.0, s.1))
  unfolding recycle_all
  recycle_all-unused v k e p vs pl = ground arith

  recycle_all-PoolLeft :
      (p : ℕ) (vs : List View) (pl : List (ℕ × ℕ))
      → PoolAt p vs pl
      → PoolLeft p (recycle_all class_of p vs pl)
  unfolding recycle_all PoolLeft
  recycle_all-PoolLeft p [] pl ok = ok
  recycle_all-PoolLeft p (v ∷ vs) pl ok = elim (Option-cases v.content_index) [
    | inl e ↦ subst (PoolLeft p) (sym (recycle_all_aside v e p vs pl)) (
        PoolAt-keep p v vs _ pl _ ok (recycle_all-before (suc p) p vs pl (omega arith))
          (recycle_all-PoolLeft (suc p) vs pl (PoolAt-tail p v vs pl ok)))
    | inr (k, e) ↦ subst (PoolLeft p) (sym (recycle_all-unused v k e p vs pl)) (
        PoolAt-unused p v _ _ (
          recycle_all-PoolLeft (suc p) vs ((class_of v.item, p) ∷ pl)
            (PoolAt-recycled p (class_of v.item) v vs pl e ok)))
  ]

  pub recycle_all-PoolOk :
      (vs : List View) (pl : List (ℕ × ℕ))
      → PoolOk vs pl
      → let s = recycle_all class_of 0 vs pl in PoolOk s.0 s.1
  unfolding PoolLeft
  recycle_all-PoolOk vs pl ok =
      let at : PoolLeft 0 (recycle_all class_of 0 vs pl) =
        recycle_all-PoolLeft 0 vs pl
          (record { idle = λ q k e h. ground (arith, ok.idle q, e); once = ok.once }) in
      record { idle = λ q h. at.idle q q (omega arith) h; once = at.once }
