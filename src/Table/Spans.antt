-- ===== src/Table/Spans.antt =====
-- utils/table_view_content_adapter.js: that the spans of the header rows add up.
use flame_js.Prelude.{
  ℕ, zero, suc, ◌+◌, ◌≤◌, ◌<◌, ◌≡◌, refl, sym, ap, ◌∙◌, false, List, [], ◌∷◌, ◌++◌, map,
  if◌then◌else◌, ◌==◌, ltb, ==_iff, length, length-append, arith,
}
use flame_js.Table.Headers.{
  Header, leaf, group, Headers, no_headers, also, Leaf, HeaderPath, mark, extend, node_leafs,
  all_leafs, get_leafs,
}
use flame_js.Table.Adapter.{
  HeaderCell, Rows, span_of, spans_of, push_at, new_cell, process_column, process_columns,
  top_columns, max_depth, cross_cell, column_header_rows,
}

pub length-mark : {H : Type 0} (i : ℕ) (ls : List (Leaf H)) → length (mark i ls) ≡ length ls
unfolding mark
length-mark i [] = refl
length-mark i (l ∷ ls) = ap suc (length-mark (suc i) ls)

-- A header spans as many columns as it has leafs.
mutual
  unfolding span_of node_leafs

  span_of-node_leafs :
      {H : Type 0} (h : Header H) (path : HeaderPath) → span_of h ≡ length (node_leafs h path)
  span_of-node_leafs (leaf id h) path = refl
  span_of-node_leafs (group id h hs) path =
      spans_of-all_leafs hs (extend id path) ∙ sym (length-mark 0 (all_leafs hs (extend id path)))

  pub spans_of-all_leafs :
      {H : Type 0} (hs : Headers H) (path : HeaderPath) → spans_of hs ≡ length (all_leafs hs path)
  spans_of-all_leafs no_headers path = refl
  spans_of-all_leafs (also h hs) path = omega (
    arith,
    span_of-node_leafs h path,
    spans_of-all_leafs hs path,
    length-append (node_leafs h path) (all_leafs hs path),
  )

pub width : {H : Type 0} → List (HeaderCell H) → ℕ
width [] = 0
width (c ∷ cs) = c.span + width cs

-- The sum of the spans in a row.
pub row_width : {H : Type 0} → Rows H → ℕ → ℕ
unfolding width
row_width [] d = 0
row_width (r ∷ rs) zero = width r
row_width (r ∷ rs) (suc d) = row_width rs d

width-append : {H : Type 0} (xs ys : List (HeaderCell H)) → width (xs ++ ys) ≡ width xs + width ys
unfolding width
width-append [] ys = omega arith
width-append (c ∷ xs) ys = omega (width-append xs ys, arith)

row_width-push_at :
    {H : Type 0} (e d : ℕ) (c : HeaderCell H) (rows : Rows H)
    → row_width (push_at e c rows) d ≡ row_width rows d + (if e == d then c.span else 0)
unfolding row_width push_at width
row_width-push_at zero zero c [] = ground arith
row_width-push_at zero (suc d) c [] = ground arith
row_width-push_at zero zero c (r ∷ rs) = ground (arith, width-append r (c ∷ []))
row_width-push_at zero (suc d) c (r ∷ rs) = ground arith
row_width-push_at (suc e) zero c [] = ground arith
row_width-push_at (suc e) (suc d) c [] =
    ground (arith, row_width-push_at e d c [], ==_iff e d, ==_iff (suc e) (suc d))
row_width-push_at (suc e) zero c (r ∷ rs) = ground arith
row_width-push_at (suc e) (suc d) c (r ∷ rs) =
    ground (arith, row_width-push_at e d c rs, ==_iff e d, ==_iff (suc e) (suc d))

-- What a header at a depth adds to the row of another depth, and the leafs of it that are above that.
mutual
  unfolding span_of

  at_depth : {H : Type 0} → Header H → ℕ → ℕ → ℕ
  at_depth (leaf id h) e d = if e == d then 1 else 0
  at_depth (group id h hs) e d = (if e == d then spans_of hs else 0) + at_depths hs (suc e) d

  at_depths : {H : Type 0} → Headers H → ℕ → ℕ → ℕ
  at_depths no_headers e d = 0
  at_depths (also h hs) e d = at_depth h e d + at_depths hs e d

unfoldable mutual
  pub leafs_above : {H : Type 0} → Header H → ℕ → ℕ → ℕ
  leafs_above (leaf id h) e d = if ltb e d then 1 else 0
  leafs_above (group id h hs) e d = all_leafs_above hs (suc e) d

  -- How many leafs the headers, at depth e, have above the depth d.
  pub all_leafs_above : {H : Type 0} → Headers H → ℕ → ℕ → ℕ
  all_leafs_above no_headers e d = 0
  all_leafs_above (also h hs) e d = leafs_above h e d + all_leafs_above hs e d

mutual
  unfolding process_column at_depth

  row_width-process_column :
      {H : Type 0} (rows : Rows H) (h : Header H) (e i d : ℕ)
      → row_width (process_column rows h e i) d ≡ row_width rows d + at_depth h e d
  row_width-process_column rows (leaf id h) e i d = row_width-push_at e d _ rows
  row_width-process_column rows (group id h hs) e i d = omega (
    arith,
    row_width-process_columns (push_at e (new_cell false e i (spans_of hs) h) rows) hs (suc e) i d,
    row_width-push_at e d (new_cell false e i (spans_of hs) h) rows,
  )

  row_width-process_columns :
      {H : Type 0} (rows : Rows H) (hs : Headers H) (e i d : ℕ)
      → row_width (process_columns rows hs e i) d ≡ row_width rows d + at_depths hs e d
  row_width-process_columns rows no_headers e i d = omega arith
  row_width-process_columns rows (also h hs) e i d = omega (
    arith,
    row_width-process_columns (process_column rows h e i) hs e i d,
    row_width-process_column rows h e i d,
  )

mutual
  unfolding at_depth

  at_depth_below : {H : Type 0} (h : Header H) (e d : ℕ) → d < e → at_depth h e d ≡ 0
  at_depth_below (leaf id h) e d l = ground (arith, ==_iff e d)
  at_depth_below (group id h hs) e d l = ground (arith, ==_iff e d, at_depths_below hs (suc e) d)

  at_depths_below : {H : Type 0} (hs : Headers H) (e d : ℕ) → d < e → at_depths hs e d ≡ 0
  at_depths_below no_headers e d l = refl
  at_depths_below (also h hs) e d l =
      omega (arith, at_depth_below h e d l, at_depths_below hs e d l)

mutual
  unfolding at_depth leafs_above span_of

  at_depth-span_of :
      {H : Type 0} (h : Header H) (e d : ℕ) → e ≤ d → at_depth h e d + leafs_above h e d ≡ span_of h
  at_depth-span_of (leaf id h) e d l = ground (arith, ==_iff e d)
  at_depth-span_of (group id h hs) e d l = ground (
    arith,
    ==_iff e d,
    at_depths_below hs (suc e) d,
    all_leafs_above_below hs (suc e) d,
    at_depths-spans_of hs (suc e) d,
  )

  at_depths-spans_of :
      {H : Type 0} (hs : Headers H) (e d : ℕ)
      → e ≤ d
      → at_depths hs e d + all_leafs_above hs e d ≡ spans_of hs
  at_depths-spans_of no_headers e d l = omega arith
  at_depths-spans_of (also h hs) e d l =
      omega (arith, at_depth-span_of h e d l, at_depths-spans_of hs e d l)

  leafs_above_below : {H : Type 0} (h : Header H) (e d : ℕ) → d ≤ e → leafs_above h e d ≡ 0
  leafs_above_below (leaf id h) e d l = ground arith
  leafs_above_below (group id h hs) e d l = all_leafs_above_below hs (suc e) d (omega arith)

  all_leafs_above_below :
      {H : Type 0} (hs : Headers H) (e d : ℕ) → d ≤ e → all_leafs_above hs e d ≡ 0
  all_leafs_above_below no_headers e d l = refl
  all_leafs_above_below (also h hs) e d l =
      omega (arith, leafs_above_below h e d l, all_leafs_above_below hs e d l)

row_width-top_columns :
    {H : Type 0} (rows : Rows H) (hs : Headers H) (i d : ℕ)
    → row_width (top_columns rows hs i) d ≡ row_width rows d + at_depths hs 0 d
unfolding top_columns at_depth
row_width-top_columns rows no_headers i d = omega arith
row_width-top_columns rows (also h hs) i d = omega (
  arith,
  row_width-top_columns (process_column rows h 0 i) hs (suc i) d,
  row_width-process_column rows h 0 i d,
)

width-map : {H : Type 0} (m : ℕ) (r : List (HeaderCell H)) → width (map (cross_cell m) r) ≡ width r
unfolding width
width-map m [] = refl
width-map m (c ∷ cs) = ground (arith, width-map m cs)

row_width-map :
    {H : Type 0} (m d : ℕ) (rows : Rows H)
    → row_width (map (map (cross_cell m)) rows) d ≡ row_width rows d
unfolding row_width
row_width-map m d [] = refl
row_width-map m zero (r ∷ rs) = width-map m r
row_width-map m (suc d) (r ∷ rs) = row_width-map m d rs

-- In each row of the column headers, the colspans and the columns whose leaf is in a row above make up
-- all the columns of the table.
pub row_width-column_header_rows :
    {H : Type 0} (hs : Headers H) (d : ℕ)
    → row_width (column_header_rows hs) d + all_leafs_above hs 0 d ≡ length (get_leafs hs [])
unfolding column_header_rows get_leafs row_width
row_width-column_header_rows hs d = omega (
  arith,
  row_width-map (max_depth hs 0) d (top_columns [] hs 0),
  row_width-top_columns [] hs 0 d,
  at_depths-spans_of hs 0 d (omega arith),
  spans_of-all_leafs hs [],
  length-mark 0 (all_leafs hs []),
)
