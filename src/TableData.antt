-- ===== src/TableData.antt =====
-- views/table_data_view.js: the state of the view that shows a table's cells, and the operations on it
-- that its states share.
pub mod States
pub mod Methods
pub mod Events
pub mod Selection
pub mod Storing
pub mod Editing
pub mod Clipboard
pub mod Updates
use flame_js.Prelude.{
  ℕ, zero, suc, ◌+◌, Bool, true, false, not, ◌&&◌, Option, none, some, List, [], ◌∷◌, ◌++◌,
  if◌then◌else◌, ◌==◌, ltb,
}
use flame_js.Table.Headers.{Index}
use flame_js.Table.Controller.{Grid, cell_at, set_cell}

-- A text, by its code points.
abbrev pub Text : Type 0
Text = List ℕ

pub record Choice (V : Type 0) : Type 0 where
  pub title : Text
  pub value : V

-- What the view takes from the application's cells and its delegate: `same_value` is that
-- `Ember.compare` gives 0, and `cell_updated` gives the cell that the delegate leaves, and whether the
-- cell is dirty.
pub record DataCells (C V : Type 0) : Type 0 where
  pub is_editable : C → Bool
  pub is_pastable : C → Bool
  pub is_copyable : C → Bool
  pub options : C → Option (List (Choice V))
  pub validate : C → V → Bool
  pub same_value : V → V → Bool
  pub editable_value : C → V
  pub formatted_value : C → V
  pub show_editor : C → Bool
  pub show_read_only_editor : C → Bool
  pub cell_updated : C → V → Index → C × Bool
  -- the text '' and the value that a text stands for, and the text of a value
  pub of_text : Text → V
  pub to_text : V → Text

-- `dirtyCells`, and the lists of cells that its observer `_cellsDidChange` has passed on, in turn, to be
-- updated on the screen, each as TableData.Updates has it.
pub record DirtyCells : Type 0 where
  pub waiting : List Index
  pub updated : List (List Index)

-- `set('dirtyCells', ...)` with one cell more, of a view in the DOM. `manipulateCells`, which the observer
-- calls, empties the array.
abbrev pub mark_dirty : Index → DirtyCells → DirtyCells
mark_dirty i d = record { waiting = []; updated = d.updated ++ (d.waiting ++ i ∷ []) ∷ [] }

-- The view's properties. A `td` is known by its row and column. `one_object` is that `selectedCell` and
-- `selectionEnd` are the same jQuery object, which `===` compares. `last_target` is that of the state
-- `mouseIsDown`, `shown_value` what the selection shows of a read-only cell. `notified` counts the calls
-- of the delegate's `didMakeSelection`.
pub record Fields (C V : Type 0) : Type 0 where
  pub rows : ℕ
  pub columns : ℕ
  pub allow_selection : Bool
  pub selected_cell : Option Index
  pub selection_end : Option Index
  pub one_object : Bool
  pub last_target : Option ℕ
  pub edit_value : Option V
  pub edit_field : V
  pub field_shown : Bool
  pub field_invalid : Bool
  pub menu_open : Bool
  pub shown_value : Option V
  pub cells : Grid C
  pub dirty_cells : DirtyCells
  pub notified : ℕ

-- The cells beside a cell; `none` stands for the empty jQuery object at an edge, where it is above or to
-- the left. Below and to the right the test whether a cell is in the table finds the edge.
abbrev pub cell_left : Index → Option Index
cell_left (i, zero) = none
cell_left (i, suc j) = some (i, j)

abbrev pub cell_right : Index → Option Index
cell_right (i, j) = some (i, suc j)

abbrev pub cell_up : Index → Option Index
cell_up (zero, j) = none
cell_up (suc i, j) = some (i, j)

abbrev pub cell_down : Index → Option Index
cell_down (i, j) = some (suc i, j)

abbrev pub same_cell : Index → Index → Bool
same_cell (i, j) (k, l) = i == k && j == l

-- `selectedDataCell`, none where there is no cell or no data for it.
unfoldable pub data_cell_at : {C : Type 0} → Grid C → Option Index → Option C
unfolding cell_at
data_cell_at g none = none
data_cell_at g (some i) = elim (cell_at g i) [ none ↦ none | some o ↦ o ]

module _ {C V : Type 0} where
  -- `isCellSelectable`: the object has a `td` of the table.
  abbrev pub is_cell_selectable : Fields C V → Option Index → Bool
  is_cell_selectable f none = false
  is_cell_selectable f (some (i, j)) = ltb i f.rows && ltb j f.columns

  -- `set('selectionEnd', cell)` with an object of its own.
  abbrev pub end_at : Option Index → Fields C V → Fields C V
  end_at c f = record f { selection_end = c; one_object = false }

  -- `set('selectionEnd', owner.get('selectedCell'))`
  abbrev pub end_at_start : Fields C V → Fields C V
  end_at_start f = record f { selection_end = f.selected_cell; one_object = true }

  abbrev pub notify_selection_change : Fields C V → Fields C V
  notify_selection_change f = record f { notified = f.notified + 1 }

  -- `selectCell`; `notify` is `notify !== false`.
  unfoldable pub select_cell : Option Index → Bool → Fields C V → Fields C V × Bool
  select_cell cell notify f =
      if f.allow_selection && is_cell_selectable f cell
      then (
        record f {
          selected_cell = cell;
          selection_end = cell;
          one_object = true;
          notified = if notify then f.notified + 1 else f.notified;
        },
        true,
      )
      else (f, false)

  abbrev pub selected_data_cell : Fields C V → Option C
  selected_data_cell f = data_cell_at f.cells f.selected_cell

-- What a value set in a cell changes: the cells, the dirty ones, and whether it was valid.
pub record Stored (C : Type 0) : Type 0 where
  pub cells : Grid C
  pub dirty_cells : DirtyCells
  pub valid : Bool

abbrev pub put_stored : {C V : Type 0} → Stored C → Fields C V → Fields C V
put_stored s f = record f { cells = s.cells; dirty_cells = s.dirty_cells }

module _ {C V : Type 0} (env : DataCells C V) where
  -- `editableValue`
  unfoldable pub editable_value : C → Bool → Option V → V
  editable_value c read_only (some v) = v
  editable_value c read_only none =
      if read_only then env.formatted_value c else env.editable_value c

  unfoldable pub store_value : V → Index → C → Grid C → DirtyCells → Stored C
  unfolding set_cell
  store_value v i c g dirty =
      if env.same_value (env.editable_value c) v
      then record { cells = g; dirty_cells = dirty; valid = true }
      else if env.validate c v
      then (let (c', is_dirty) = env.cell_updated c v i in
          record {
            cells = set_cell i c' g;
            dirty_cells = if is_dirty then mark_dirty i dirty else dirty;
            valid = true;
          })
      else record { cells = g; dirty_cells = dirty; valid = false }

  -- `_validateAndSet` at a cell, of which the callers have seen that there is data for it.
  unfoldable pub validate_and_set : V → Index → Grid C → DirtyCells → Stored C
  unfolding store_value
  validate_and_set v i g dirty = elim (data_cell_at g (some i)) [
    | none ↦ record { cells = g; dirty_cells = dirty; valid = false }
    | some c ↦ store_value v i c g dirty
  ]

  -- `_validateAndSet` at the selected cell.
  unfoldable pub set_selected : V → Fields C V → Stored C
  unfolding validate_and_set
  set_selected v f = elim f.selected_cell [
    | none ↦ record { cells = f.cells; dirty_cells = f.dirty_cells; valid = false }
    | some i ↦ validate_and_set v i f.cells f.dirty_cells
  ]

  -- `_confirmEdit`
  unfoldable pub confirm_edit : Fields C V → Fields C V × Bool
  unfolding set_selected
  confirm_edit f =
      let s = set_selected f.edit_field f in
      if s.valid
      then (put_stored s f, true)
      else (record (put_stored s f) { field_invalid = true }, false)
