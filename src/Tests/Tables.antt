-- ===== src/Tests/Tables.antt =====
-- controllers/table_controller.js and utils/table_view_content_adapter.js: a table with two rows, and
-- three columns of which two stand under one header.
use flame_js.Prelude.{
  ℕ, ◌+◌, ◌≡◌, refl, false, none, some, [], ◌∷◌, ◌++◌, length, if◌then◌else◌, ◌==◌,
}
use flame_js.Table.Headers.{
  HeaderPath, mark, extend, node_leafs, get_leafs, found, index_from_path, path_from_index, plain,
  parent, Plains, no_plains, plus, wrap_header, wrap_headers, row_mapping,
}
use flame_js.Table.Paths.{Unique, AllAnonymous, Anonymous, wrapped-Unique}
use flame_js.Table.Mapping.{index_from_path-path_from_index}
use flame_js.Table.Controller.{
  CellData, on_column, Cells, Grid, TableHeaders, row_leafs, column_leafs, cell_at, make_cell,
  push_cells,
}
use flame_js.Table.Push.{settled, any_hits, AllFound, goes_to, push_cells-cell}
use flame_js.Table.Spans.{row_width, all_leafs_above, row_width-column_header_rows}
use flame_js.Table.Adapter.{column_header_rows}

abbrev plain_rows : Plains ℕ
plain_rows = plus (plain none 10) (plus (plain none 11) no_plains)

abbrev plain_columns : Plains ℕ
plain_columns =
    plus (plain none 20)
      (plus (parent none 21 (plus (plain none 22) (plus (plain none 23) no_plains))) no_plains)

rows-AllAnonymous : AllAnonymous plain_rows
unfolding Anonymous
rows-AllAnonymous = (tt, (tt, tt))

columns-AllAnonymous : AllAnonymous plain_columns
unfolding Anonymous
columns-AllAnonymous = (tt, ((tt, (tt, tt)), tt))

wrapped-Unique_example : Unique (get_leafs (wrap_headers plain_columns) [])
wrapped-Unique_example = wrapped-Unique plain_columns columns-AllAnonymous

abbrev table_headers : TableHeaders ℕ
table_headers = record { rows = wrap_headers plain_rows; columns = wrap_headers plain_columns }

index_from_path-path_from_index_example :
    index_from_path (row_leafs table_headers) (column_leafs table_headers) (1 ∷ []) (1 ∷ 0 ∷ [])
    ≡ found (1, 1)
unfolding get_leafs node_leafs mark extend wrap_header path_from_index
index_from_path-path_from_index_example =
    index_from_path-path_from_index (row_leafs table_headers) (column_leafs table_headers) (1, 1)
      (wrapped-Unique plain_rows rows-AllAnonymous)
      (wrapped-Unique plain_columns columns-AllAnonymous) refl

-- A cell is a number, which has 100 pending where it is zero.
abbrev cells : Cells ℕ ℕ ℕ ℕ
cells = record {
  create_cell = λ h d r c. d.value + c;
  pending = λ c. if c == 0 then some 100 else none;
  apply_pending = λ a c. a + c;
}

abbrev datum : ℕ → HeaderPath → ℕ → CellData ℕ
datum i column v = record { row = i ∷ []; column = column; value = v }

abbrev grid : Grid ℕ
grid = (none ∷ some 0 ∷ none ∷ []) ∷ (none ∷ none ∷ none ∷ []) ∷ []

goes_to-datum : goes_to table_headers (datum 0 (1 ∷ 0 ∷ []) 5) ≡ found (0, 1)
unfolding get_leafs node_leafs mark extend wrap_header index_from_path row_mapping
goes_to-datum = refl

goes_to-other : goes_to table_headers (datum 1 (0 ∷ []) 6) ≡ found (1, 0)
unfolding get_leafs node_leafs mark extend wrap_header index_from_path row_mapping
goes_to-other = refl

misses : any_hits table_headers (0, 1) (datum 1 (0 ∷ []) 6 ∷ []) ≡ false
unfolding any_hits get_leafs node_leafs mark extend wrap_header index_from_path row_mapping
misses = refl

all_found : AllFound table_headers (datum 1 (0 ∷ []) 6 ∷ [])
unfolding AllFound
all_found = (((1, 0), goes_to-other), tt)

push_cells-cell_example :
    cell_at
      (push_cells cells table_headers on_column
        ((datum 1 (0 ∷ []) 6 ∷ []) ++ datum 0 (1 ∷ 0 ∷ []) 5 ∷ [])
        grid
        []).0
      (0, 1)
    ≡ some (some 127)
unfolding any_hits get_leafs node_leafs mark extend wrap_header settled make_cell cell_at
push_cells-cell_example =
    push_cells-cell cells table_headers on_column (datum 1 (0 ∷ []) 6 ∷ []) []
      (datum 0 (1 ∷ 0 ∷ []) 5) grid [] (0, 1) all_found misses refl goes_to-datum refl refl refl

row_width-column_header_rows_example :
    row_width (column_header_rows (wrap_headers plain_columns)) 1
      + all_leafs_above (wrap_headers plain_columns) 0 1
    ≡ length (get_leafs (wrap_headers plain_columns) [])
row_width-column_header_rows_example = row_width-column_header_rows (wrap_headers plain_columns) 1
