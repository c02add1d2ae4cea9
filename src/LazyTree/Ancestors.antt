-- ===== src/LazyTree/Ancestors.antt =====
-- views/lazy_tree_view.js: that the climb from an item along its parents ends at the outermost level.
use flame_js.Prelude.{
  ℕ, zero, suc, ◌-◌, ◌<◌, ◌≡◌, refl, sym, ◌∙◌, none, some, List, [], ◌∷◌, arith, length, get_elem?,
  Option-cases, inl, inr,
}
use flame_js.LazyTree.{Cache, climb, with_root, get_ancestors}
use flame_js.LazyTree.Rows.{Agrees, get_elem?-length}

-- Each is followed by its parent, up to one that has none.
abbrev pub Chain : Cache → List ℕ → Type 0
Chain c [] = ⊥
Chain c (x ∷ []) = c.parent_of x ≡ none
Chain c (x ∷ y ∷ ys) = (c.parent_of x ≡ some y) × Chain c (y ∷ ys)

-- What a climb finds: the item, its parent, and so on up to the outermost level, one for each level.
pub record Climb (c : Cache) (x : ℕ) (ancestors : List ℕ) : Type 0 where
  pub starts : get_elem? ancestors 0 ≡ some x
  pub chain : Chain c ancestors
  pub levels : c.level_of x ≡ some (length ancestors - 1)

Chain-∷ :
    (c : Cache) (x p : ℕ) (ps : List ℕ)
    → c.parent_of x ≡ some p
    → get_elem? ps 0 ≡ some p
    → Chain c ps
    → Chain c (x ∷ ps)
Chain-∷ c x p [] q e h = absurd h
Chain-∷ c x p (y ∷ ys) q e h = (q ∙ sym e, h)

climb-Climb :
    (c : Cache)
    → Agrees c
    → (n x row : ℕ) → c.row_of x ≡ some row
    → row < n
    → (ancestors : List ℕ) × (climb c n x ≡ some ancestors) × Climb c x ancestors
unfolding climb
climb-Climb c ok zero x row e l = absurd (omega arith)
climb-Climb c ok (suc n) x row e l = elim (Option-cases (c.parent_of x)) [
  | inl q ↦
      (x ∷ [], ground arith, record { starts = refl; chain = q; levels = ok.rooted x row e q })
  | inr (p, q) ↦
      let u = ok.above x p q in
      let (ancestors, returns, rest) =
        climb-Climb c ok n p u.parent_row u.row_of_p (ground (arith, u.row_of_x, u.below)) in
      (
        x ∷ ancestors,
        ground (arith, q, returns),
        record {
          starts = refl;
          chain = Chain-∷ c x p ancestors q rest.starts rest.chain;
          levels = ground (
            arith,
            rest.levels,
            u.level_of_p,
            u.level_of_x,
            get_elem?-length ancestors 0 {x = p} rest.starts,
          );
        },
      )
]

-- For an item in a row, with caches that agree, `getAncestors` returns: the item, its parent, the
-- parent's parent and so on up to an item without a parent, one for each level above the item, and then
-- null.
pub get_ancestors-Climb :
    (c : Cache) (x row : ℕ)
    → Agrees c
    → c.row_of x ≡ some row
    → (ancestors : List ℕ) × (get_ancestors c x ≡ some (with_root ancestors)) × Climb c x ancestors
unfolding get_ancestors
get_ancestors-Climb c x row ok e =
    let (ancestors, returns, found) =
      climb-Climb c ok (length c.rows) x row e
        (get_elem?-length c.rows row {x = x} (ok.back x row e)) in
    (ancestors, ground (arith, returns), found)
