-- ===== src/LazyTree/Moving.antt =====
-- views/lazy_tree_view.js: that moving the views as the rows change keeps the recycled ones in order.
use flame_js.Prelude.{
  ℕ, zero, suc, ◌+◌, ◌<◌, ◌≡◌, refl, none, some, List, [], ◌∷◌, arith, ==_iff, Option-cases, inl,
  inr, if_keeps, cases_keep,
}
use flame_js.Prelude.Items.{count}
use flame_js.LazyList.{View, Range, in_range, unused}
use flame_js.LazyList.Pool.{places, PoolOk, index_at}
use flame_js.LazyList.Recycling.{
  PoolAt, PoolAt-absent, PoolAt-tail, PoolAt-keep, PoolAt-unused, PoolAt-recycled,
}
use flame_js.LazyTree.{Cache}
use flame_js.LazyTree.Toggle.{Moved, put_first, note, at_row, move_views}

-- A view that shows a row is moved to another one.
PoolAt-moved :
    (p : ℕ) (v w : View) (vs rest : List View) (pl new : List (ℕ × ℕ)) {i : ℕ}
    → v.content_index ≡ some i
    → PoolAt p (v ∷ vs) pl
    → count p (places new) ≡ count p (places pl)
    → PoolAt (suc p) rest new
    → PoolAt p (w ∷ rest) new
unfolding index_at
PoolAt-moved p v w vs rest pl new e ok same more = record { idle = idle; once = more.once }
  where
    idle : (q k : ℕ) → q ≡ p + k → 0 < count q (places new) → index_at (w ∷ rest) k ≡ some none
    idle q zero at h =
        let here : q ≡ p = omega arith in
        absurd (ground (arith, here, h, same, PoolAt-absent p v vs pl e ok))
    idle q (suc k) at h = more.idle q k (omega (arith, at)) h

module _ (class_of : ℕ → ℕ) (c : Cache) (r : Range) where
  move_views-before :
      (p q : ℕ) (vs : List View) (pl : List (ℕ × ℕ))
      → q < p
      → count q (places (move_views class_of c r p vs pl).pool) ≡ count q (places pl)
  unfolding move_views
  move_views-before p q [] pl l = refl
  move_views-before p q (v ∷ vs) pl l = elim (Option-cases v.content_index) [
    | inl e ↦ ground (arith, e, move_views-before (suc p) q vs pl)
    | inr (i, e) ↦ ground (
      arith,
      e,
      ==_iff p q,
      move_views-before (suc p) q vs pl,
      move_views-before (suc p) q vs ((class_of v.item, p) ∷ pl),
    )
  ]

  PoolMoved : ℕ → Moved → Type 0
  PoolMoved p s = PoolAt p s.moved s.pool

  -- The loop at a view: it has no row, leaves the tree or the range, or is moved.
  recycled :
      (p : ℕ) (v : View) (vs : List View) (pl : List (ℕ × ℕ)) {i : ℕ}
      → v.content_index ≡ some i
      → PoolAt p (v ∷ vs) pl
      → (PoolAt (suc p) vs ((class_of v.item, p) ∷ pl)
          → PoolMoved (suc p) (move_views class_of c r (suc p) vs ((class_of v.item, p) ∷ pl)))
      → PoolMoved p
          (put_first (unused v) (move_views class_of c r (suc p) vs ((class_of v.item, p) ∷ pl)))
  unfolding PoolMoved
  recycled p v vs pl e ok again =
      PoolAt-unused p v _ _ (again (PoolAt-recycled p (class_of v.item) v vs pl e ok))

  kept :
      (p : ℕ) (v : View) (vs : List View) (pl : List (ℕ × ℕ))
      → PoolAt p (v ∷ vs) pl
      → PoolMoved (suc p) (move_views class_of c r (suc p) vs pl)
      → PoolMoved p (put_first v (move_views class_of c r (suc p) vs pl))
  unfolding PoolMoved
  kept p v vs pl ok more =
      PoolAt-keep p v vs _ pl _ ok (move_views-before (suc p) p vs pl (omega arith)) more

  moved_to :
      (p row : ℕ) (v : View) (vs : List View) (pl : List (ℕ × ℕ)) {i : ℕ}
      → v.content_index ≡ some i
      → PoolAt p (v ∷ vs) pl
      → PoolMoved (suc p) (move_views class_of c r (suc p) vs pl)
      → PoolMoved p (note row (put_first (at_row row v) (move_views class_of c r (suc p) vs pl)))
  unfolding PoolMoved
  moved_to p row v vs pl e ok more =
      PoolAt-moved p v (at_row row v) vs _ pl _ e ok
        (move_views-before (suc p) p vs pl (omega arith)) more

  noted : (p row : ℕ) (s : Moved) → PoolMoved p s → PoolMoved p (note row s)
  unfolding PoolMoved
  noted p row s ok = ok

  move_views-PoolMoved :
      (p : ℕ) (vs : List View) (pl : List (ℕ × ℕ))
      → PoolAt p vs pl
      → PoolMoved p (move_views class_of c r p vs pl)
  unfolding move_views
  move_views-PoolMoved p [] pl ok = unfold PoolMoved in ok
  move_views-PoolMoved p (v ∷ vs) pl ok =
      cases_keep (PoolMoved p) v.content_index
        (λ e. kept p v vs pl ok (move_views-PoolMoved (suc p) vs pl (PoolAt-tail p v vs pl ok)))
        (λ i e.
          let away =
            recycled p v vs pl e ok (move_views-PoolMoved (suc p) vs ((class_of v.item, p) ∷ pl)) in
          cases_keep (PoolMoved p) (c.row_of v.item) (λ _. away)
            (λ row _.
              if_keeps (PoolMoved p) (in_range r row)
                (λ _.
                  moved_to p row v vs pl e ok
                    (move_views-PoolMoved (suc p) vs pl (PoolAt-tail p v vs pl ok)))
                (λ _. noted p row _ away)))

  -- Moving the views keeps the recycled ones in order.
  pub move_views-PoolOk :
      (vs : List View) (pl : List (ℕ × ℕ))
      → PoolOk vs pl
      → let s = move_views class_of c r 0 vs pl in PoolOk s.moved s.pool
  unfolding PoolMoved
  move_views-PoolOk vs pl ok =
      let at : PoolMoved 0 (move_views class_of c r 0 vs pl) =
        move_views-PoolMoved 0 vs pl
          (record { idle = λ q k e h. ground (arith, ok.idle q, e); once = ok.once }) in
      record { idle = λ q h. at.idle q q (omega arith) h; once = at.once }
