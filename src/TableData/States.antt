-- ===== src/TableData/States.antt =====
-- views/table_data_view.js: the states of the view, with the methods that they handle.
use flame_js.Prelude.{ℕ, Bool, true, false, Option, none, some, [], if◌then◌else◌}
use flame_js.Statechart.{state, Machine, done, no_name, not_a_state, Chart, goto_flame_state}
use flame_js.EventManager.{Answer}
use flame_js.Table.Headers.{Index}
use flame_js.TableData.{
  DataCells, Fields, end_at_start, selected_data_cell, editable_value, set_selected, put_stored,
}

pub data State : Type 0 where
  loaded mouse_is_down selected selecting_read_only editing : State

pub State-discrete : Discrete State
State-discrete = hlevel

-- A press of the mouse: the cell it is in, whether that is a `td` itself or an element inside the
-- selection, and the shift key. Where the browser gives the selection for the cell under it, the
-- source looks for that cell first.
pub record Press : Type 0 where
  pub cell : Option Index
  pub is_td : Bool
  pub in_selection : Bool
  pub shift_key : Bool

pub data Direction : Type 0 where
  left right up down : Direction

pub data Message (V : Type 0) : Type 0 where
  mouse_down : Press → Message V
  -- the element under the pointer, and the cell it is in
  mouse_move : ℕ → Option Index → Message V
  mouse_up : Message V
  double_click : Message V
  move : Direction → Message V
  move_and_modify_selection : Direction → Message V
  insert_newline : Message V
  insert_tab : Message V
  insert_backtab : Message V
  delete_backward : Message V
  delete_forward : Message V
  cancel : Message V
  -- with ctrl or meta, whether the character is one that starts an edit, and its value
  key_press : Bool → Bool → V → Message V

abbrev pub TableData : Type 0 → Type 0 → Type 0
TableData C V = Machine State (Fields C V)

abbrev pub with_fields : {C V : Type 0} → Fields C V → TableData C V → TableData C V
with_fields f b = record { current = b.current; owner = f }

abbrev pub in_state : {C V : Type 0} → State → Fields C V → TableData C V
in_state s f = record { current = some s; owner = f }

abbrev pub Method : Type 0 → Type 0 → Type 0
Method C V = TableData C V → TableData C V × Answer

module _ {C V : Type 0} (env : DataCells C V) where
  -- The editor for a cell: a special one, a menu of its options, or the edit field.
  open_editor : C → Fields C V → Fields C V
  unfolding editable_value
  open_editor c f = if env.show_editor c then f else elim (env.options c) [
    | some os ↦ record f { menu_open = true }
    | none ↦ record f {
      edit_field = editable_value env c false f.edit_value;
      edit_value = none;
      field_shown = true;
    }
  ]

  enter_state : State → TableData C V → TableData C V
  unfolding open_editor editable_value
  enter_state loaded b =
      with_fields (record b.owner { selected_cell = none; selection_end = none }) b
  enter_state editing b = elim (selected_data_cell b.owner) [
    | none ↦ b
    | some c ↦ with_fields (open_editor c b.owner) b
  ]
  enter_state selecting_read_only b = elim (selected_data_cell b.owner) [
    | none ↦ b
    | some c ↦
        if env.show_read_only_editor c
        then b
        else with_fields
            (record b.owner { shown_value = some (editable_value env c true b.owner.edit_value) }) b
  ]
  enter_state _ b = b

  exit_state : State → TableData C V → TableData C V
  exit_state editing b =
      with_fields (record b.owner { field_shown = false; field_invalid = false }) b
  exit_state selecting_read_only b = with_fields (record b.owner { shown_value = none }) b
  exit_state _ b = b

  chart : Chart State (Fields C V)
  chart = record { resolve = λ n. state n; exit_state = exit_state; enter_state = enter_state }

  -- Every name here is a state's, so the error results do not arise.
  unfoldable pub goto : State → TableData C V → TableData C V
  unfolding goto_flame_state State-discrete chart enter_state exit_state
  goto n b = elim (goto_flame_state State-discrete chart (some n) b) [
    | done b' ↦ b'
    | no_name ↦ b
    | not_a_state ↦ b
  ]

  -- `startEdit`
  unfoldable pub start_edit : TableData C V → TableData C V
  unfolding goto
  start_edit b = elim (selected_data_cell b.owner) [
    | none ↦ b
    | some c ↦
        if env.is_editable c
        then goto editing (with_fields (end_at_start b.owner) b)
        else elim (env.options c) [
          | some os ↦ b
          | none ↦ goto selecting_read_only (with_fields (end_at_start b.owner) b)
        ]
  ]

  -- `wipeCell`
  unfoldable pub wipe_cell : TableData C V → TableData C V
  unfolding set_selected
  wipe_cell b = elim (selected_data_cell b.owner) [
    | none ↦ b
    | some c ↦
        if env.is_editable c
        then with_fields (put_stored (set_selected env (env.of_text []) b.owner) b.owner) b
        else b
  ]
