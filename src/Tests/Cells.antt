-- ===== src/Tests/Cells.antt =====
-- views/table_data_view.js: a table of three rows and two columns.
use flame_js.Prelude.{
  take, ℕ, zero, suc, ◌+◌, ◌≡◌, refl, Bool, true, false, none, some, [], ◌∷◌, arith, if◌then◌else◌,
  ◌==◌, ltb,
}
use flame_js.TableData.{Text, DataCells, Fields, data_cell_at}
use flame_js.TableData.Storing.{set_to}
use flame_js.Table.Controller.{Grid, cell_at, set_cell}
use flame_js.TableData.States.{
  in_state, selected, editing, insert_newline, key_press, move, down, mouse_down, mouse_up,
}
use flame_js.TableData.Events.{message, menu_closes, run, init}
use flame_js.TableData.Selection.{SelectionOk, run-init-SelectionOk}
use flame_js.TableData.Editing.{edits, run-edits, run-edits_invalid, stale_edit_value}
use flame_js.TableData.Clipboard.{strip, value_for_copy, paste_value, copied}
use flame_js.TableData.Clipboard.Texts.{PlainSelection}
use flame_js.TableData.Clipboard.Pasting.{paste_copied}
use flame_js.TableData.Updates.{
  Setup, Screen, cells_did_change, update_cell, update_cells, fresh, run_loops,
}
use flame_js.TableData.Updates.Batches.{at_once, run_loops-cells_did_change}
use flame_js.TableData.Updates.Lost.{lost_update}

-- A cell holds a number, and 100 stands for one with options. A number below 100 is valid; its text is one
-- digit.
abbrev numbers : DataCells ℕ ℕ
numbers = record {
  is_editable = λ c. true;
  is_pastable = λ c. true;
  is_copyable = λ c. true;
  options = λ c. if c == 100 then some [] else none;
  validate = λ c v. ltb v 100;
  same_value = λ v w. v == w;
  editable_value = λ c. c;
  formatted_value = λ c. c;
  show_editor = λ c. false;
  show_read_only_editor = λ c. false;
  cell_updated = λ c v i. (v, true);
  of_text = λ t. elim t [ [] ↦ 0 | d ∷ ds ↦ d ];
  to_text = λ v. if v == 0 then [] else v ∷ [];
}

abbrev three_rows : Fields ℕ ℕ
three_rows = record {
  rows = 3;
  columns = 2;
  allow_selection = true;
  selected_cell = some (0, 1);
  selection_end = some (0, 1);
  one_object = true;
  last_target = none;
  edit_value = none;
  edit_field = 0;
  field_shown = false;
  field_invalid = false;
  menu_open = false;
  shown_value = none;
  cells = (some 65 ∷ some 66 ∷ []) ∷ (some 67 ∷ some 68 ∷ []) ∷ (some 0 ∷ some 70 ∷ []) ∷ [];
  dirty_cells = record { waiting = []; updated = [] };
  notified = 0;
}

plain_66 : data_cell_at three_rows.cells (some (0, 1)) ≡ some 66
unfolding data_cell_at
plain_66 = refl

run-edits_example :
    let b = run numbers false (in_state selected three_rows) (edits 7) in
    (b.current ≡ some selected)
    × (data_cell_at b.owner.cells (some (0, 1)) ≡ some 7)
    × (b.owner.dirty_cells ≡ record { waiting = []; updated = ((0, 1) ∷ []) ∷ [] })
    × (b.owner.selected_cell ≡ some (1, 1))
    × (b.owner.field_shown ≡ false)
run-edits_example =
    run-edits numbers false three_rows (0, 1) 66 7 refl refl plain_66
      (record { editable = refl; no_options = refl; default_editor = refl }) refl refl

-- 100 is not valid.
run-edits_invalid_example :
    run numbers false (in_state selected three_rows) (edits 100)
    ≡ in_state editing
        (record three_rows { edit_field = 100; field_shown = true; field_invalid = true })
run-edits_invalid_example =
    run-edits_invalid numbers false three_rows (0, 1) 66 100 refl refl plain_66
      (record { editable = refl; no_options = refl; default_editor = refl }) refl refl

abbrev with_options : Fields ℕ ℕ
with_options = record three_rows {
  cells = (some 65 ∷ some 100 ∷ []) ∷ (some 67 ∷ some 68 ∷ []) ∷ [];
}

options_at : data_cell_at with_options.cells (some (0, 1)) ≡ some 100
unfolding data_cell_at
options_at = refl

plain_68 : data_cell_at with_options.cells (some (1, 1)) ≡ some 68
unfolding data_cell_at
plain_68 = refl

stale_edit_value_example :
    let b = run numbers false (in_state selected with_options) (
      message (key_press false true 5)
      ∷ menu_closes
      ∷ message (move down)
      ∷ message insert_newline
      ∷ []) in
    (b.current ≡ some editing) × (b.owner.selected_cell ≡ some (1, 1)) × (b.owner.edit_field ≡ 5)
stale_edit_value_example =
    stale_edit_value numbers false with_options (0, 1) 100 5 refl refl options_at 68 refl refl refl
      refl refl plain_68 (record { editable = refl; no_options = refl; default_editor = refl })

run-init-SelectionOk_example : SelectionOk (
    run numbers false (init numbers false three_rows) (
      message (
        mouse_down
          (record { cell = some (1, 0); is_td = true; in_selection = false; shift_key = false }))
      ∷ message mouse_up
      ∷ message insert_newline
      ∷ []))
run-init-SelectionOk_example = run-init-SelectionOk numbers false three_rows _ refl refl refl

-- The cells of the table, updated in batches of two.
abbrev in_twos : Setup ℕ
in_twos = record {
  elements = 6;
  column_length = 2;
  batch_size = some 2;
  placeholder = 0;
  paint = λ c. if c == 0 then none else some (c + 1);
}

abbrev screen : Screen ℕ
screen = record {
  cells = three_rows.cells;
  painted = [];
  update_counter = 0;
  jobs = [];
  thrown = false;
}

run_loops-cells_did_change_example :
    run_loops in_twos 3 (cells_did_change in_twos ((0, 0) ∷ (1, 1) ∷ (2, 0) ∷ []) screen)
    ≡ cells_did_change (at_once in_twos) ((0, 0) ∷ (1, 1) ∷ (2, 0) ∷ []) screen
run_loops-cells_did_change_example =
    run_loops-cells_did_change in_twos 1 refl ((0, 0) ∷ (1, 1) ∷ (2, 0) ∷ []) screen 3 refl
      (omega arith)

first_batch_quiet :
    (update_cells in_twos (take 2 ((0, 0) ∷ (1, 1) ∷ (2, 0) ∷ [])) (fresh in_twos screen)).thrown
    ≡ false
unfolding update_cells update_cell cell_at set_cell
first_batch_quiet = refl

lost_update_example :
    (run_loops in_twos 5 (
      cells_did_change in_twos
        ((0, 1) ∷ [])
        (cells_did_change in_twos ((0, 0) ∷ (1, 1) ∷ (2, 0) ∷ []) screen))).painted
    ≡ (update_cells in_twos ((0, 0) ∷ (1, 1) ∷ (0, 1) ∷ []) screen).painted
lost_update_example =
    lost_update in_twos 1 refl ((0, 0) ∷ (1, 1) ∷ (2, 0) ∷ []) ((0, 1) ∷ []) screen 4 refl
      (omega arith) (omega arith) (omega arith) first_batch_quiet

-- Two cells in a row, copied and pasted to the last row of the table.
abbrev two_cells : Grid ℕ
two_cells = (some 65 ∷ some 66 ∷ []) ∷ []

two_cells-PlainSelection : PlainSelection numbers two_cells (0, 0) (0, 1)
unfolding data_cell_at
two_cells-PlainSelection zero zero p q r s = record {
  no_tab = refl;
  no_newline = refl;
  no_return = refl;
}
two_cells-PlainSelection zero (suc zero) p q r s = record {
  no_tab = refl;
  no_newline = refl;
  no_return = refl;
}
two_cells-PlainSelection zero (suc (suc j)) p q r s = absurd (omega (arith, s))
two_cells-PlainSelection (suc i) j p q r s = absurd (omega (arith, q))

two_cells-strip :
    strip (value_for_copy numbers two_cells (0, 0) (0, 1))
    ≡ value_for_copy numbers two_cells (0, 0) (0, 1)
unfolding strip value_for_copy data_cell_at
two_cells-strip = refl

plain_70 : data_cell_at three_rows.cells (some (2 + 0, 0 + 1)) ≡ some 70
unfolding data_cell_at
plain_70 = refl

same_text : Text → Text → Bool
same_text t u = false

paste_copied_example :
    data_cell_at
      (paste_value numbers same_text
        (value_for_copy numbers two_cells (0, 0) (0, 1))
        (2, 0)
        (2, 0)
        three_rows).cells
      (some (2 + 0, 0 + 1))
    ≡ some (
        set_to numbers
          (numbers.of_text (copied numbers two_cells (0 + 0, 0 + 1)))
          (2 + 0, 0 + 1)
          70)
paste_copied_example =
    paste_copied numbers same_text two_cells (0, 0) (0, 1) (2, 0) (2, 0) three_rows 0 1 70
      two_cells-PlainSelection two_cells-strip refl (omega arith) (omega arith) (omega arith)
      (record { editable = refl; pastable = refl; no_options = refl }) plain_70
