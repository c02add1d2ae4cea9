-- ===== src/TableData/Updates.antt =====
-- views/table_data_view.js: the cells on the screen are updated in batches, one to a run loop.
pub mod Batches
pub mod Lost
use flame_js.Prelude.{
  ℕ, zero, suc, ◌+◌, ◌*◌, Bool, true, false, Option, none, some, List, [], ◌∷◌, ◌++◌, if◌then◌else◌,
  ◌==◌, ltb, length, take, drop,
}
use flame_js.Table.Headers.{Index}
use flame_js.Table.Controller.{Grid, cell_at, set_cell}

-- A call of `_batchUpdate` that waits for the next run loop: the cells from `startIx` on, and the counter
-- that it is given, which may be undefined.
pub record Job : Type 0 where
  pub counter : Option ℕ
  pub left : List Index

-- `painted` are the cells whose element the callback was called with and painted, in turn. `thrown` is
-- whether it threw an error in the run loop that ran last, which ends the update.
pub record Screen (C : Type 0) : Type 0 where
  pub cells : Grid C
  pub painted : List Index
  pub update_counter : ℕ
  pub jobs : List Job
  pub thrown : Bool

-- How many `td` there are, the columns of the data, and the batch's size, which is none where
-- `batchUpdates` is off. `placeholder` is a new `{pending: {}}`, and `paint` what the callback leaves of a
-- cell, none where it throws.
pub record Setup (C : Type 0) : Type 0 where
  pub elements : ℕ
  pub column_length : ℕ
  pub batch_size : Option ℕ
  pub placeholder : C
  pub paint : C → Option C

module _ {C : Type 0} (u : Setup C) where
  -- A cell with no data yet gets a placeholder.
  abbrev filled : Option (Option C) → C
  filled (some (some c)) = c
  filled _ = u.placeholder

  -- A call of the callback.
  abbrev pub paint_cell : Index → Option C → Screen C → Screen C
  paint_cell i (some c) s = record s { cells = set_cell i c s.cells; painted = s.painted ++ i ∷ [] }
  paint_cell i none s = record s { thrown = true }

  -- The body of the loop, which does not run again after an error.
  unfoldable pub update_cell : Index → Screen C → Screen C
  unfolding cell_at set_cell
  update_cell (x, y) s =
      let cell = filled (cell_at s.cells (x, y)) in
      let placed = record s { cells = set_cell (x, y) cell s.cells } in
      if s.thrown
      then s
      else if ltb (x * u.column_length + y) u.elements
      then paint_cell (x, y) (u.paint cell) placed
      else placed

  unfoldable pub update_cells : List Index → Screen C → Screen C
  unfolding update_cell
  update_cells [] s = s
  update_cells (i ∷ is) s = update_cells is (update_cell i s)

  -- `typeof updateCounter !== 'undefined' && updateCounter !== this._updateCounter`
  unfoldable pub is_outdated : Option ℕ → ℕ → Bool
  is_outdated none now = false
  is_outdated (some c) now = if c == now then false else true

  unfoldable pub later : Option ℕ → List Index → Screen C → Screen C
  later counter [] s = s
  later counter (i ∷ is) s =
      if s.thrown
      then s
      else record s { jobs = s.jobs ++ record { counter = counter; left = i ∷ is } ∷ [] }

  -- No error has been thrown in a new run loop or call.
  abbrev pub fresh : Screen C → Screen C
  fresh s = record s { thrown = false }

  abbrev size_of : Option ℕ → List Index → ℕ
  size_of none left = length left
  size_of (some n) left = n

  -- `_batchUpdate`
  unfoldable pub batch_update : Option ℕ → List Index → Screen C → Screen C
  unfolding is_outdated later update_cells
  batch_update counter left s =
      let n = size_of u.batch_size left in
      if is_outdated counter s.update_counter
      then s
      else later counter (drop n left) (update_cells (take n left) s)

  -- `manipulateCells`, of a view in the DOM. With no cells nothing is done.
  unfoldable pub manipulate_cells : Option ℕ → List Index → Screen C → Screen C
  unfolding batch_update
  manipulate_cells counter [] s = s
  manipulate_cells counter (i ∷ is) s = batch_update counter (i ∷ is) s

  -- `_cellsDidChange` and `_updatingCellsDidChange`
  unfoldable pub cells_did_change : List Index → Screen C → Screen C
  unfolding manipulate_cells
  cells_did_change dirty s =
      let n = s.update_counter + 1 in
      manipulate_cells (some n) dirty (record s { update_counter = n; thrown = false })

  unfoldable pub updating_cells_did_change : List Index → Screen C → Screen C
  unfolding manipulate_cells
  updating_cells_did_change marked s = manipulate_cells none marked (fresh s)

  -- The next run loop: the first job that waits.
  next_job : List Job → Screen C → Screen C
  unfolding batch_update
  next_job [] s = s
  next_job (j ∷ js) s = batch_update j.counter j.left (record s { jobs = js; thrown = false })

  -- n run loops.
  unfoldable pub run_loops : ℕ → Screen C → Screen C
  unfolding next_job
  run_loops zero s = s
  run_loops (suc n) s = run_loops n (next_job s.jobs s)
