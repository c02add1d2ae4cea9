-- ===== src/Table/Mapping.antt =====
-- controllers/table_controller.js: the map from paths to indices against `pathFromIndex`.
use flame_js.Prelude.{
  ℕ, zero, suc, ◌+◌, ◌≤◌, ◌≡◌, refl, true, Option, none, some, List, [], ◌∷◌, ==_iff, Option-cases,
  inl, inr, get_elem?, arith,
}
use flame_js.Table.Headers.{
  HeaderPath, Headers, Leaf, mark, same_path, Index, put, row_mapping, fill_mapping, found,
  index_from_path, path_from_index, get_leafs, all_leafs,
}
use flame_js.Table.Paths.{count, Unique}

pub same_path_refl : (k : HeaderPath) → same_path k k ≡ true
same_path_refl [] = refl
same_path_refl (x ∷ k) = ground (arith, ==_iff x x, same_path_refl k)

same_path_symm : (k l : HeaderPath) → same_path k l ≡ same_path l k
same_path_symm [] [] = refl
same_path_symm [] (y ∷ l) = refl
same_path_symm (x ∷ k) [] = refl
same_path_symm (x ∷ k) (y ∷ l) = ground (arith, same_path_symm k l, ==_iff x y, ==_iff y x)

-- Columns whose path is not the key's leave what the map holds for it.
row_mapping_absent :
    {H : Type 0} (i j : ℕ) (cs : List (Leaf H)) (m : HeaderPath → Option Index) (k : HeaderPath)
    → count k cs ≡ 0
    → row_mapping i j cs m k ≡ m k
unfolding row_mapping
row_mapping_absent i j [] m k h = refl
row_mapping_absent i j (c ∷ cs) m k h =
    ground (arith, row_mapping_absent i (suc j) cs (put c.path (i, j) m) k, same_path_symm k c.path)

row_mapping_at :
    {H : Type 0} (i j n : ℕ) (cs : List (Leaf H)) (m : HeaderPath → Option Index) (c : Leaf H)
    → get_elem? cs n ≡ some c
    → count c.path cs ≤ 1
    → row_mapping i j cs m c.path ≡ some (i, j + n)
unfolding row_mapping
row_mapping_at i j n [] m c h u = absurd (cc)
row_mapping_at i j zero (d ∷ cs) m c h u =
    ground
      (arith, row_mapping_absent i (suc j) cs (put d.path (i, j) m) c.path, same_path_refl c.path)
row_mapping_at i j (suc n) (d ∷ cs) m c h u =
    ground (arith, row_mapping_at i (suc j) n cs (put d.path (i, j) m) c h)

fill_mapping_absent :
    {H : Type 0} (i : ℕ) (rs cs : List (Leaf H))
    (m : HeaderPath → Option (HeaderPath → Option Index)) (k : HeaderPath)
    → count k rs ≡ 0
    → fill_mapping i rs cs m k ≡ m k
unfolding fill_mapping
fill_mapping_absent i [] cs m k h = refl
fill_mapping_absent i (r ∷ rs) cs m k h = ground (
  arith,
  fill_mapping_absent (suc i) rs cs (put r.path (row_mapping i 0 cs (λ _. none)) m) k,
  same_path_symm k r.path,
)

fill_mapping_at :
    {H : Type 0} (i n : ℕ) (rs cs : List (Leaf H))
    (m : HeaderPath → Option (HeaderPath → Option Index)) (r : Leaf H)
    → get_elem? rs n ≡ some r
    → count r.path rs ≤ 1
    → fill_mapping i rs cs m r.path ≡ some (row_mapping (i + n) 0 cs (λ _. none))
unfolding fill_mapping
fill_mapping_at i n [] cs m r h u = absurd (cc)
fill_mapping_at i zero (d ∷ rs) cs m r h u = ground (
  arith,
  fill_mapping_absent (suc i) rs cs (put d.path (row_mapping i 0 cs (λ _. none)) m) r.path,
  same_path_refl r.path,
)
fill_mapping_at i (suc n) (d ∷ rs) cs m r h u =
    ground
      (arith, fill_mapping_at (suc i) n rs cs (put d.path (row_mapping i 0 cs (λ _. none)) m) r h)

module _ {H : Type 0} (rows columns : List (Leaf H)) where
  -- Where no two rows and no two columns have the same path, the path of a cell that is in the table
  -- leads back to the cell's index.
  pub index_from_path-path_from_index :
      (index : Index) {row column : HeaderPath}
      → Unique rows
      → Unique columns
      → path_from_index rows columns index ≡ some (row, column)
      → index_from_path rows columns row column ≡ found index
  unfolding index_from_path path_from_index
  index_from_path-path_from_index (i, j) {row} {column} u v h =
      let (r, p) = at_row in
      let (c, q) = at_column r p in
      ground (
        arith,
        fill_mapping_at 0 i rows columns (λ _. none) r p (u r.path),
        row_mapping_at i 0 j columns (λ _. none) c q (v c.path),
      )
    where
      at_row : (r : Leaf H) × (get_elem? rows i ≡ some r)
      at_row = elim (Option-cases (get_elem? rows i)) [
        | inl e ↦ absurd (ground arith)
        | inr (r, e) ↦ (r, e)
      ]

      at_column :
          (r : Leaf H) → get_elem? rows i ≡ some r → (c : Leaf H) × (get_elem? columns j ≡ some c)
      at_column r p = elim (Option-cases (get_elem? columns j)) [
        | inl e ↦ absurd (ground arith)
        | inr (c, e) ↦ (c, e)
      ]

-- The leaf index of a leaf is its place among the leafs of its table.
get_elem?-mark :
    {H : Type 0} (i n : ℕ) (ls : List (Leaf H)) (l : Leaf H)
    → get_elem? (mark i ls) n ≡ some l
    → l.leaf_index ≡ i + n
unfolding mark
get_elem?-mark i n [] l h = absurd (cc)
get_elem?-mark i zero (x ∷ ls) l h = ground arith
get_elem?-mark i (suc n) (x ∷ ls) l h = ground (arith, get_elem?-mark (suc i) n ls l h)

pub leaf_index-get_leafs :
    {H : Type 0} (hs : Headers H) (n : ℕ) (l : Leaf H)
    → get_elem? (get_leafs hs []) n ≡ some l
    → l.leaf_index ≡ n
unfolding get_leafs
leaf_index-get_leafs hs n l h = omega (arith, get_elem?-mark 0 n (all_leafs hs []) l h)
