-- ===== src/Table/RowSpans.antt =====
-- utils/table_view_content_adapter.js: how many rows the row headers make.
use flame_js.Prelude.{
  ℕ, suc, ◌+◌, ◌≡◌, refl, ap, Bool, true, false, [], ◌∷◌, ◌++◌, map, if◌then◌else◌, length,
  length-append, length-map, arith,
}
use flame_js.Table.Headers.{Header, leaf, group, Headers, no_headers, also, all_leafs, get_leafs}
use flame_js.Table.Adapter.{
  HeaderCell, Rows, span_of, spans_of, push_last, new_cell, process_row, process_rows, top_rows,
  max_depth, cross_cell, row_header_rows,
}
use flame_js.Table.Spans.{length-mark, spans_of-all_leafs}

-- Every header with children has a child.
unfoldable mutual
  pub Filled : {H : Type 0} → Header H → Type 0
  Filled (leaf id h) = Unit {0}
  Filled (group id h no_headers) = ⊥
  Filled (group id h (also c cs)) = Filled c × AllFilled cs

  pub AllFilled : {H : Type 0} → Headers H → Type 0
  AllFilled no_headers = Unit {0}
  AllFilled (also h hs) = Filled h × AllFilled hs

length-push_last :
    {H : Type 0} (c : HeaderCell H) (rows : Rows H) → length (push_last c rows) ≡ length rows
unfolding push_last
length-push_last c [] = refl
length-push_last c (r ∷ []) = refl
length-push_last c (r ∷ s ∷ rs) = ap suc (length-push_last c (s ∷ rs))

abbrev opened : {H : Type 0} → Bool → Rows H → Rows H
opened first rows = if first then rows else rows ++ [] ∷ []

length-opened :
    {H : Type 0} (first : Bool) (rows : Rows H)
    → length (opened first rows) ≡ length rows + (if first then 0 else 1)
length-opened first rows = ground (arith, length-append rows ([] ∷ []))

mutual
  unfolding process_row span_of Filled

  length-process_row :
      {H : Type 0} (rows : Rows H) (h : Header H) (e i : ℕ) (first : Bool)
      → Filled h
      → length (process_row rows h e first i) + (if first then 1 else 0) ≡ length rows + span_of h
  length-process_row rows (leaf id h) e i first f = ground (
    arith,
    length-push_last (new_cell true e i 1 h) (opened first rows),
    length-opened first rows,
  )
  length-process_row rows (group id h no_headers) e i first f = absurd f
  length-process_row rows (group id h (also c cs)) e i first f =
      let start = push_last (new_cell false e i (spans_of (also c cs)) h) (opened first rows) in
      ground (
        arith,
        length-process_rows (process_row start c (suc e) true i) cs (suc e) i f.1,
        length-process_row start c (suc e) i true f.0,
        length-push_last (new_cell false e i (spans_of (also c cs)) h) (opened first rows),
        length-opened first rows,
      )

  length-process_rows :
      {H : Type 0} (rows : Rows H) (hs : Headers H) (e i : ℕ)
      → AllFilled hs
      → length (process_rows rows hs e false i) ≡ length rows + spans_of hs
  length-process_rows rows no_headers e i f = omega arith
  length-process_rows rows (also h hs) e i f = ground (
    arith,
    length-process_rows (process_row rows h e false i) hs e i f.1,
    length-process_row rows h e i false f.0,
  )

length-top_rows :
    {H : Type 0} (rows : Rows H) (hs : Headers H) (i : ℕ)
    → AllFilled hs
    → length (top_rows rows hs false i) ≡ length rows + spans_of hs
unfolding top_rows span_of Filled
length-top_rows rows no_headers i f = omega arith
length-top_rows rows (also h hs) i f = ground (
  arith,
  length-top_rows (process_row rows h 0 false i) hs (suc i) f.1,
  length-process_row rows h 0 i false f.0,
)

-- Where there is a row header and each one with children has a child, the row headers are rendered in
-- as many rows as the table has.
pub length-row_header_rows :
    {H : Type 0} (h : Header H) (hs : Headers H)
    → Filled h
    → AllFilled hs
    → length (row_header_rows (also h hs)) ≡ length (get_leafs (also h hs) [])
unfolding row_header_rows get_leafs top_rows span_of
length-row_header_rows h hs f fs = ground (
  arith,
  length-map (top_rows ([] ∷ []) (also h hs) true 0) (map (cross_cell (max_depth (also h hs) 0))),
  length-top_rows (process_row ([] ∷ []) h 0 true 0) hs 1 fs,
  length-process_row ([] ∷ []) h 0 0 true f,
  spans_of-all_leafs (also h hs) [],
  length-mark 0 (all_leafs (also h hs) []),
)
