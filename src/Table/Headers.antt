-- ===== src/Table/Headers.antt =====
-- controllers/table_controller.js: the leafs of a table's headers and the map from their paths to
-- indices; controllers/data_table_controller.js: the wrapping of plain headers.
use flame_js.Prelude.{
  ℕ, suc, Bool, true, false, ◌&&◌, Option, none, some, List, [], ◌∷◌, ◌++◌, if◌then◌else◌, ◌==◌,
  get_elem?,
}

-- The `TableHeader` objects: a node with an own property `children` need not have an `id`. The rest of
-- a header is of type H.
mutual
  pub data Header (H : Type 0) : Type 0 where
    leaf : ℕ → H → Header H
    group : Option ℕ → H → Headers H → Header H

  pub data Headers (H : Type 0) : Type 0 where
    no_headers : Headers H
    also : Header H → Headers H → Headers H

abbrev pub HeaderPath : Type 0
HeaderPath = List ℕ

pub record Leaf (H : Type 0) : Type 0 where
  pub path : HeaderPath
  pub leaf_index : ℕ
  pub node : H

unfoldable pub mark : {H : Type 0} → ℕ → List (Leaf H) → List (Leaf H)
mark i [] = []
mark i (l ∷ ls) = record l { leaf_index = i } ∷ mark (suc i) ls

-- `node.hasOwnProperty('id') ? path.concat(node.id) : path`
unfoldable pub extend : Option ℕ → HeaderPath → HeaderPath
extend none path = path
extend (some id) path = path ++ id ∷ []

-- `_getLeafs` before the leaf indices are marked, on one node and on all.
unfoldable mutual
  unfolding mark extend

  pub node_leafs : {H : Type 0} → Header H → HeaderPath → List (Leaf H)
  node_leafs (leaf id h) path = record { path = path ++ id ∷ []; leaf_index = 0; node = h } ∷ []
  node_leafs (group id h children) path = mark 0 (all_leafs children (extend id path))

  pub all_leafs : {H : Type 0} → Headers H → HeaderPath → List (Leaf H)
  all_leafs no_headers path = []
  all_leafs (also h hs) path = node_leafs h path ++ all_leafs hs path

unfoldable pub get_leafs : {H : Type 0} → Headers H → HeaderPath → List (Leaf H)
unfolding mark node_leafs
get_leafs nodes path = mark 0 (all_leafs nodes path)

-- Paths as keys of an object: two are the same key where they hold the same numbers.
abbrev pub same_path : HeaderPath → HeaderPath → Bool
same_path [] [] = true
same_path [] (y ∷ ys) = false
same_path (x ∷ xs) [] = false
same_path (x ∷ xs) (y ∷ ys) = x == y && same_path xs ys

abbrev pub Index : Type 0
Index = ℕ × ℕ

abbrev pub put : {A : Type 0} → HeaderPath → A → (HeaderPath → Option A) → HeaderPath → Option A
put k v m k' = if same_path k k' then some v else m k'

-- `_indexFromPathMapping`: the inner loop, and the outer one.
unfoldable pub row_mapping :
    {H : Type 0} → ℕ → ℕ → List (Leaf H) → (HeaderPath → Option Index) → HeaderPath → Option Index
row_mapping i j [] m = m
row_mapping i j (c ∷ cs) m = row_mapping i (suc j) cs (put c.path (i, j) m)

unfoldable pub fill_mapping :
    {H : Type 0}
    → ℕ
    → List (Leaf H)
    → List (Leaf H)
    → (HeaderPath → Option (HeaderPath → Option Index))
    → HeaderPath
    → Option (HeaderPath → Option Index)
unfolding row_mapping
fill_mapping i [] columns m = m
fill_mapping i (r ∷ rs) columns m =
    fill_mapping (suc i) rs columns (put r.path (row_mapping i 0 columns (λ _. none)) m)

unfoldable pub index_from_path_mapping :
    {H : Type 0} → List (Leaf H) → List (Leaf H) → HeaderPath → Option (HeaderPath → Option Index)
unfolding fill_mapping
index_from_path_mapping rows columns = fill_mapping 0 rows columns (λ _. none)

-- `indexFromPath`: an error where no row has the path, undefined where only no column has it.
pub data Lookup : Type 0 where
  found : Index → Lookup
  undefined no_row : Lookup

unfoldable pub look_up : Option (HeaderPath → Option Index) → HeaderPath → Lookup
look_up none column = no_row
look_up (some m) column = elim (m column) [ none ↦ undefined | some i ↦ found i ]

unfoldable pub index_from_path :
    {H : Type 0} → List (Leaf H) → List (Leaf H) → HeaderPath → HeaderPath → Lookup
unfolding index_from_path_mapping look_up
index_from_path rows columns row column = look_up (index_from_path_mapping rows columns row) column

path_pair : {H : Type 0} → Option (Leaf H) → Option (Leaf H) → Option (HeaderPath × HeaderPath)
path_pair none c = none
path_pair (some r) none = none
path_pair (some r) (some c) = some (r.path, c.path)

-- `pathFromIndex`, which fails where an index is out of range.
unfoldable pub path_from_index :
    {H : Type 0} → List (Leaf H) → List (Leaf H) → Index → Option (HeaderPath × HeaderPath)
unfolding path_pair
path_from_index rows columns (i, j) = path_pair (get_elem? rows i) (get_elem? columns j)

-- The plain headers that a data table is given: a header may bring its own `id`, which wins over its
-- index among its siblings.
mutual
  pub data Plain (H : Type 0) : Type 0 where
    plain : Option ℕ → H → Plain H
    parent : Option ℕ → H → Plains H → Plain H

  pub data Plains (H : Type 0) : Type 0 where
    no_plains : Plains H
    plus : Plain H → Plains H → Plains H

unfoldable pub own_or : Option ℕ → ℕ → ℕ
own_or none i = i
own_or (some id) i = id

-- `_wrapHeaders`
unfoldable mutual
  unfolding own_or

  pub wrap_header : {H : Type 0} → ℕ → Plain H → Header H
  wrap_header i (plain id h) = leaf (own_or id i) h
  wrap_header i (parent id h children) = group (some (own_or id i)) h (wrap_from 0 children)

  pub wrap_from : {H : Type 0} → ℕ → Plains H → Headers H
  wrap_from i no_plains = no_headers
  wrap_from i (plus h hs) = also (wrap_header i h) (wrap_from (suc i) hs)

abbrev pub wrap_headers : {H : Type 0} → Plains H → Headers H
wrap_headers hs = wrap_from 0 hs
