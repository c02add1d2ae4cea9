-- ===== src/Table/Controller.antt =====
-- controllers/table_controller.js: the grid of a table's cells, which data is pushed into in batches;
-- controllers/data_table_controller.js: a table whose data is pushed as one batch.
use flame_js.Prelude.{
  ℕ, suc, Bool, true, false, ◌&&◌, Option, none, some, List, [], ◌∷◌, ◌++◌, if◌then◌else◌, length,
  get_elem?, set, replicate,
}
use flame_js.Table.Headers.{
  Headers, HeaderPath, Leaf, get_leafs, Index, found, undefined, no_row, index_from_path_mapping,
  index_from_path, Plains, wrap_headers,
}

pub record CellData (V : Type 0) : Type 0 where
  pub row : HeaderPath
  pub column : HeaderPath
  pub value : V

-- Which headers create the cells: the property `valuesOn`.
pub data ValuesOn : Type 0 where
  on_row on_column : ValuesOn

-- What the controller takes from the application's headers and cells: `createCell` of the header that
-- the values are on, given the cell's data with the parameters of its row and column; the attributes
-- that a placeholder keeps under `pending`, and their assignment to a cell.
pub record Cells (H V C A : Type 0) : Type 0 where
  pub create_cell : H → CellData V → H → H → C
  pub pending : C → Option A
  pub apply_pending : A → C → C

abbrev pub Grid : Type 0 → Type 0
Grid C = List (List (Option C))

pub record TableHeaders (H : Type 0) : Type 0 where
  pub rows : Headers H
  pub columns : Headers H

pub record Table (H C : Type 0) : Type 0 where
  pub headers : Option (TableHeaders H)
  pub values_on : ValuesOn
  pub cells : Grid C
  pub dirty_cells : List Index

pub data Outcome (T : Type 0) : Type 0 where
  done : T → Outcome T
  -- "Can't push data without first setting headers!"
  no_table_headers : Outcome T
  -- a path of the batch is not in the table: the cells before it have been stored
  no_such_cell : T → Outcome T

module _ {H : Type 0} where
  abbrev pub row_leafs : TableHeaders H → List (Leaf H)
  row_leafs h = get_leafs h.rows []

  abbrev pub column_leafs : TableHeaders H → List (Leaf H)
  column_leafs h = get_leafs h.columns []

module _ {C : Type 0} where
  -- `_data[i][j]`
  unfoldable pub cell_at : Grid C → Index → Option (Option C)
  cell_at g (i, j) = elim (get_elem? g i) [ none ↦ none | some r ↦ get_elem? r j ]

  unfoldable pub set_cell : Index → C → Grid C → Grid C
  set_cell (i, j) c g = elim (get_elem? g i) [ none ↦ g | some r ↦ set g i (set r j (some c)) ]

module _ {H C : Type 0} where
  -- `_headersDidChange`
  unfoldable pub headers_did_change : Option (TableHeaders H) → Table H C → Table H C
  headers_did_change none t = record t { headers = none }
  headers_did_change (some h) t = record t {
    headers = some h;
    dirty_cells = [];
    cells = replicate (length (row_leafs h)) (replicate (length (column_leafs h)) none);
  }

module _ {H V C A : Type 0} (env : Cells H V C A) where
  -- A placeholder's pending attributes go to the cell that takes its place.
  unfoldable pub merge : Option (Option C) → C → C
  merge (some (some old)) c = elim (env.pending old) [ none ↦ c | some a ↦ env.apply_pending a c ]
  merge _ c = c

  -- `fields[index[valuesOn === 'row' ? 0 : 1]].createCell(cell)`
  unfoldable pub make_cell : ValuesOn → CellData V → Leaf H → Leaf H → C
  make_cell on_row d r c = env.create_cell r.node d r.node c.node
  make_cell on_column d r c = env.create_cell c.node d r.node c.node

  -- The index is one that the mapping gives, so that both leafs are there.
  unfoldable pub store :
      ValuesOn → CellData V → Index → Option (Leaf H) → Option (Leaf H) → Grid C → Grid C
  unfolding set_cell merge make_cell cell_at
  store on d index (some r) (some c) g =
      set_cell index (merge (cell_at g index) (make_cell on d r c)) g
  store on d index _ _ g = g

  -- The loop over a batch: the cells and, unless a path is not found, the dirty cells.
  unfoldable pub push_cells :
      TableHeaders H
      → ValuesOn
      → List (CellData V)
      → Grid C
      → List Index
      → Grid C × Option (List Index)
  push_cells h on [] g dirty = (g, some dirty)
  push_cells h on (d ∷ ds) g dirty =
      elim (index_from_path (row_leafs h) (column_leafs h) d.row d.column) [
        | found index ↦
            push_cells h on ds
              (store on d index (get_elem? (row_leafs h) index.0)
                (get_elem? (column_leafs h) index.1) g)
              (dirty ++ index ∷ [])
        | undefined ↦ (g, none)
        | no_row ↦ (g, none)
      ]

  last_of : CellData V → List (CellData V) → CellData V
  last_of d [] = d
  last_of d (e ∷ es) = last_of e es

  has_row : TableHeaders H → HeaderPath → Bool
  unfolding index_from_path_mapping
  has_row h row = elim (index_from_path_mapping (row_leafs h) (column_leafs h) row) [
    | none ↦ false
    | some m ↦ true
  ]

  -- `_dataBatchIsForCurrentTable`
  unfoldable pub data_batch_is_for_current_table : TableHeaders H → List (CellData V) → Bool
  unfolding last_of has_row
  data_batch_is_for_current_table h [] = false
  data_batch_is_for_current_table h (d ∷ ds) = has_row h d.row && has_row h (last_of d ds).row

  finish_push : Table H C → Grid C × Option (List Index) → Outcome (Table H C)
  finish_push t (g, none) = no_such_cell (record t { cells = g })
  finish_push t (g, some dirty) = done (record t { cells = g; dirty_cells = dirty })

  unfoldable pub push_batch :
      Option (TableHeaders H) → List (CellData V) → Table H C → Outcome (Table H C)
  unfolding finish_push
  push_batch none ds t = no_table_headers
  push_batch (some h) ds t =
      if data_batch_is_for_current_table h ds
      then finish_push t (push_cells h t.values_on ds t.cells t.dirty_cells)
      else done t

  -- `pushDataBatch`
  unfoldable pub push_data_batch : Option (List (CellData V)) → Table H C → Outcome (Table H C)
  unfolding push_batch
  push_data_batch none t = done t
  push_data_batch (some ds) t = push_batch t.headers ds t

-- `_transformData`: the inner loop over a row, and the outer one.
unfoldable pub transform_row : {V : Type 0} → ℕ → ℕ → List V → List (CellData V)
transform_row i j [] = []
transform_row i j (v ∷ vs) =
    record { row = i ∷ []; column = j ∷ []; value = v } ∷ transform_row i (suc j) vs

unfoldable pub transform_from : {V : Type 0} → ℕ → List (List V) → List (CellData V)
unfolding transform_row
transform_from i [] = []
transform_from i (r ∷ rs) = transform_row i 0 r ++ transform_from (suc i) rs

abbrev pub transform_data : {V : Type 0} → List (List V) → List (CellData V)
transform_data rows = transform_from 0 rows

-- `_headersDidChange` of a data table, with its headers and its data.
unfoldable pub data_headers_did_change :
    {H V C A : Type 0}
    → Cells H V C A
    → Plains H
    → Plains H
    → Option (List (List V))
    → Table H C
    → Outcome (Table H C)
unfolding headers_did_change push_data_batch
data_headers_did_change env rows columns none t = done (
    headers_did_change (some (record { rows = wrap_headers rows; columns = wrap_headers columns }))
      t)
data_headers_did_change env rows columns (some d) t =
    push_data_batch env (some (transform_data d)) (
      headers_did_change
        (some (record { rows = wrap_headers rows; columns = wrap_headers columns })) t)
