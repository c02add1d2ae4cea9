-- ===== src/Table/Adapter.antt =====
-- utils/table_view_content_adapter.js: the headers of a table as the rows that are rendered.
use flame_js.Prelude.{
  ℕ, zero, suc, ◌+◌, ◌-◌, max, Bool, true, false, Option, none, some, List, [], ◌∷◌, ◌++◌,
  if◌then◌else◌, map,
}
use flame_js.Table.Headers.{Header, leaf, group, Headers, no_headers, also}

-- A header as it is rendered: `span` is its `colspan` in the rows of the column headers and its
-- `rowspan` in those of the row headers, `cross` is the other one, which only leafs are given.
pub record HeaderCell (H : Type 0) : Type 0 where
  pub depth : ℕ
  pub data_index : ℕ
  pub span : ℕ
  pub cross : Option ℕ
  pub is_leaf : Bool
  pub node : H

abbrev pub Rows : Type 0 → Type 0
Rows H = List (List (HeaderCell H))

-- The result of `_processHeader`, which it also writes to the header as its span.
unfoldable mutual
  pub span_of : {H : Type 0} → Header H → ℕ
  span_of (leaf id h) = 1
  span_of (group id h children) = spans_of children

  pub spans_of : {H : Type 0} → Headers H → ℕ
  spans_of no_headers = 0
  spans_of (also h hs) = span_of h + spans_of hs

-- `if (!headerRows[depth]) headerRows[depth] = []; headerRows[depth].push(header)`
unfoldable pub push_at : {H : Type 0} → ℕ → HeaderCell H → Rows H → Rows H
push_at zero c [] = (c ∷ []) ∷ []
push_at zero c (r ∷ rs) = (r ++ c ∷ []) ∷ rs
push_at (suc d) c [] = [] ∷ push_at d c []
push_at (suc d) c (r ∷ rs) = r ∷ push_at d c rs

-- `headerRows[headerRows.length - 1].push(header)`
unfoldable pub push_last : {H : Type 0} → HeaderCell H → Rows H → Rows H
push_last c [] = []
push_last c (r ∷ []) = (r ++ c ∷ []) ∷ []
push_last c (r ∷ s ∷ rs) = r ∷ push_last c (s ∷ rs)

abbrev pub new_cell : {H : Type 0} → Bool → ℕ → ℕ → ℕ → H → HeaderCell H
new_cell is_leaf depth index span node = record {
  depth = depth + 1;
  data_index = index;
  span = span;
  cross = none;
  is_leaf = is_leaf;
  node = node;
}

-- `_processHeader` with the type 'columns'.
unfoldable mutual
  unfolding push_at span_of

  pub process_column : {H : Type 0} → Rows H → Header H → ℕ → ℕ → Rows H
  process_column rows (leaf id h) depth index = push_at depth (new_cell true depth index 1 h) rows
  process_column rows (group id h children) depth index =
      process_columns (push_at depth (new_cell false depth index (spans_of children) h) rows)
        children (suc depth) index

  pub process_columns : {H : Type 0} → Rows H → Headers H → ℕ → ℕ → Rows H
  process_columns rows no_headers depth index = rows
  process_columns rows (also h hs) depth index =
      process_columns (process_column rows h depth index) hs depth index

-- `_processHeader` with the type 'rows'.
unfoldable mutual
  unfolding push_last span_of

  pub process_row : {H : Type 0} → Rows H → Header H → ℕ → Bool → ℕ → Rows H
  process_row rows (leaf id h) depth first index =
      push_last (new_cell true depth index 1 h) (if first then rows else rows ++ [] ∷ [])
  process_row rows (group id h children) depth first index =
      process_rows
        (push_last (new_cell false depth index (spans_of children) h)
          (if first then rows else rows ++ [] ∷ []))
        children (suc depth) true index

  -- `first` says that the next child is the first one.
  pub process_rows : {H : Type 0} → Rows H → Headers H → ℕ → Bool → ℕ → Rows H
  process_rows rows no_headers depth first index = rows
  process_rows rows (also h hs) depth first index =
      process_rows (process_row rows h depth first index) hs depth false index

-- The loops over the outermost headers, which number them.
unfoldable pub top_columns : {H : Type 0} → Rows H → Headers H → ℕ → Rows H
unfolding process_column
top_columns rows no_headers i = rows
top_columns rows (also h hs) i = top_columns (process_column rows h 0 i) hs (suc i)

unfoldable pub top_rows : {H : Type 0} → Rows H → Headers H → Bool → ℕ → Rows H
unfolding process_row
top_rows rows no_headers first i = rows
top_rows rows (also h hs) first i = top_rows (process_row rows h 0 first i) hs false (suc i)

-- The depths of the leafs, and the greatest, where there is a leaf.
unfoldable mutual
  pub leaf_depth : {H : Type 0} → Header H → ℕ → ℕ
  leaf_depth (leaf id h) depth = depth + 1
  leaf_depth (group id h children) depth = max_depth children (suc depth)

  pub max_depth : {H : Type 0} → Headers H → ℕ → ℕ
  max_depth no_headers depth = 0
  max_depth (also h hs) depth = max (leaf_depth h depth) (max_depth hs depth)

-- The other span of a leaf: it fills the rest up to the deepest leaf.
abbrev pub cross_cell : {H : Type 0} → ℕ → HeaderCell H → HeaderCell H
cross_cell deepest c = if c.is_leaf then record c { cross = some (deepest + 1 - c.depth) } else c

-- `columnHeaderRows` and `rowHeaderRows`
unfoldable pub column_header_rows : {H : Type 0} → Headers H → Rows H
unfolding top_columns leaf_depth
column_header_rows hs = map (map (cross_cell (max_depth hs 0))) (top_columns [] hs 0)

unfoldable pub row_header_rows : {H : Type 0} → Headers H → Rows H
unfolding top_rows leaf_depth
row_header_rows hs = map (map (cross_cell (max_depth hs 0))) (top_rows ([] ∷ []) hs true 0)
