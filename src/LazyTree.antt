-- ===== src/LazyTree.antt =====
-- views/lazy_tree_view.js: a tree that is rendered as a flat list, by caches of its rows.
pub mod Rows
pub mod Loading
pub mod Ancestors
pub mod Toggle
pub mod Moving
pub mod Toggling
use flame_js.Prelude.{
  ℕ, zero, suc, ◌+◌, ◌-◌, Bool, true, false, not, Option, none, some, List, [], ◌∷◌, ◌++◌,
  if◌then◌else◌, ◌==◌, length, get_elem?,
}

-- Items are numbered, with the items in `treeItemChildren`, none where it is not set.
mutual
  pub data Tree : Type 0 where
    item : ℕ → Trees → Tree

  pub data Trees : Type 0 where
    no_trees : Trees
    with : Tree → Trees → Trees

-- `_rowToItemCache`, `_itemToRowCache`, `_itemToLevelCache`, `_itemToParentCache` and
-- `_numberOfCachedRows`.
pub record Cache : Type 0 where
  pub rows : List ℕ
  pub row_of : ℕ → Option ℕ
  pub level_of : ℕ → Option ℕ
  pub parent_of : ℕ → Option ℕ
  pub number_of_rows : ℕ

abbrev pub map_set : {A : Type 0} → ℕ → A → (ℕ → Option A) → ℕ → Option A
map_set x v m y = if x == y then some v else m y

-- `_invalidateRowCache`
abbrev pub empty_cache : Cache
empty_cache = record {
  rows = [];
  row_of = λ _. none;
  level_of = λ _. none;
  parent_of = λ _. none;
  number_of_rows = 0;
}

-- `if (parent) this._itemToParentCache.set(item, parent)`
abbrev pub put_parent : ℕ → Option ℕ → (ℕ → Option ℕ) → ℕ → Option ℕ
put_parent x none m = m
put_parent x (some p) m = map_set x p m

-- `loadItemIntoCache`, the item itself.
unfoldable pub add_row : ℕ → ℕ → Option ℕ → Cache → Cache
add_row x level parent c = record {
  rows = c.rows ++ x ∷ [];
  row_of = map_set x c.number_of_rows c.row_of;
  level_of = map_set x level c.level_of;
  parent_of = put_parent x parent c.parent_of;
  number_of_rows = c.number_of_rows + 1;
}

-- `loadItemIntoCache`, and its loop over the children of an item. `expanded` is `_expandedItems`.
unfoldable mutual
  unfolding add_row

  pub load_item : (ℕ → Bool) → Tree → ℕ → Option ℕ → Cache → Cache
  load_item expanded (item x children) level parent c =
      let loaded = load_items expanded children (level + 1) (some x) (add_row x level parent c) in
      if expanded x then loaded else add_row x level parent c

  pub load_items : (ℕ → Bool) → Trees → ℕ → Option ℕ → Cache → Cache
  load_items expanded no_trees level parent c = c
  load_items expanded (with t ts) level parent c =
      load_items expanded ts level parent (load_item expanded t level parent c)

-- `loadCache`, on an empty cache as in `numberOfRowsChanged`.
unfoldable pub load_cache : (ℕ → Bool) → Trees → Cache
unfolding load_item
load_cache expanded content = load_items expanded content 0 none empty_cache

abbrev pub item_for_row : Cache → ℕ → Option ℕ
item_for_row c row = get_elem? c.rows row

abbrev pub row_for_item : Cache → ℕ → Option ℕ
row_for_item c x = c.row_of x

-- `while (parent) { ancestors.push(parent); ... }`, with fuel: none where it runs out.
unfoldable pub climb : Cache → ℕ → ℕ → Option (List ℕ)
climb c zero x = none
climb c (suc n) x = elim (c.parent_of x) [
  | none ↦ some (x ∷ [])
  | some p ↦ (let rest = climb c n p in elim rest [ none ↦ none | some ps ↦ some (x ∷ ps) ])
]

-- `ancestors.push(null)`, where null stands for the root.
abbrev pub with_root : List ℕ → List (Option ℕ)
with_root [] = none ∷ []
with_root (x ∷ xs) = some x ∷ with_root xs

-- `getAncestors` of an item
unfoldable pub get_ancestors : Cache → ℕ → Option (List (Option ℕ))
unfolding climb
get_ancestors c x = elim (climb c (length c.rows) x) [ none ↦ none | some xs ↦ some (with_root xs) ]
