-- ===== src/TableData/Methods.antt =====
-- views/table_data_view.js: the methods of the view's states.
use flame_js.Prelude.{ℕ, Bool, true, false, ◌&&◌, Option, none, some, if◌then◌else◌, ◌==◌}
use flame_js.Statechart.{Reply, returned, undefined, no_current_state, invoke_state_method}
use flame_js.EventManager.{Answer, allow_default, handled, ignored}
use flame_js.Table.Headers.{Index}
use flame_js.TableData.{
  DataCells, Fields, cell_left, cell_right, cell_up, cell_down, same_cell, is_cell_selectable,
  end_at, notify_selection_change, select_cell, selected_data_cell, confirm_edit,
}
use flame_js.TableData.States.{
  State, loaded, mouse_is_down, selected, selecting_read_only, editing, Press, Direction, left,
  right, up, down, Message, mouse_down, mouse_move, mouse_up, double_click, move,
  move_and_modify_selection, insert_newline, insert_tab, insert_backtab, delete_backward,
  delete_forward, cancel, key_press, TableData, with_fields, Method, goto, start_edit, wipe_cell,
}

beside : Direction → Index → Option Index
beside left = cell_left
beside right = cell_right
beside up = cell_up
beside down = cell_down

beside_cell : Direction → Option Index → Option Index
unfolding beside
beside_cell d none = none
beside_cell d (some i) = beside d i

answer : Reply Answer → Answer
answer (returned a) = a
answer undefined = ignored
answer no_current_state = ignored

module _ {C V : Type 0} where
  -- `moveLeft` and the like of the state `selected`.
  move_selection : Direction → TableData C V → TableData C V
  unfolding select_cell beside_cell
  move_selection d b =
      with_fields (select_cell (beside_cell d b.owner.selected_cell) true b.owner).0 b

  -- `modifySelection`
  modify_selection : Option Index → Method C V
  modify_selection cell b =
      if is_cell_selectable b.owner cell
      then (with_fields (notify_selection_change (end_at cell b.owner)) b, handled)
      else (b, ignored)

  no_keys : Method C V
  no_keys b = (b, ignored)

  -- `owner.invokeStateMethod(...)`, for the messages that a table of methods has.
  invoke : {M : Type 0} → (State → M → Option (Method C V)) → M → Method C V
  unfolding invoke_state_method no_keys answer
  invoke methods msg b =
      let (b', r) = invoke_state_method methods (λ u. false) no_keys msg b in (b', answer r)

  -- The methods `moveLeft` and the like of the state `selected`, which the others call.
  moves : State → Direction → Option (Method C V)
  unfolding move_selection
  moves selected d = some (λ b. (move_selection d b, handled))
  moves _ d = none

  tabs : State → Bool → Option (Method C V)
  unfolding moves invoke
  tabs selected back = some (λ b. ((invoke moves (if back then left else right) b).0, handled))
  tabs _ back = none

module _ {C V : Type 0} (env : DataCells C V) (delegate_mouse_up : Bool) where
  -- The method `mouseDown` of the state `loaded`.
  press_loaded : Press → Method C V
  unfolding select_cell goto
  press_loaded p b =
      let (f, taken) = select_cell p.cell false b.owner in
      if taken then (goto env mouse_is_down (with_fields f b), handled) else (b, ignored)

  presses : State → Press → Option (Method C V)
  unfolding press_loaded
  presses loaded p = some (press_loaded p)
  presses _ p = none

  -- `mouseUp` of the state `selected`, where the delegate has a method of the name or not.
  release : Method C V
  release b =
      if delegate_mouse_up
      then (with_fields (notify_selection_change b.owner) b, ignored)
      else (b, ignored)

  releases : State → Unit {0} → Option (Method C V)
  unfolding release
  releases selected u = some release
  releases _ u = none

  -- A press on the selected cell, where it has options, starts an edit.
  unfoldable pub starts_edit : Press → Fields C V → Bool
  starts_edit p f = elim (selected_data_cell f) [
    | none ↦ false
    | some c ↦ elim (env.options c) [
      | none ↦ false
      | some os ↦ p.is_td && on_selected p.cell f.selected_cell
    ]
  ]
    where
      on_selected : Option Index → Option Index → Bool
      on_selected (some c) (some s) = same_cell c s
      on_selected _ _ = false

  press_selected : Press → Method C V
  unfolding start_edit goto presses invoke
  press_selected p b =
      if starts_edit p b.owner
      then (start_edit env b, handled)
      else if p.shift_key && is_cell_selectable b.owner p.cell
      then (with_fields (end_at p.cell b.owner) b, handled)
      else if p.in_selection
      then (b, handled)
      else invoke presses p (goto env loaded b)

  -- `mouseMove` of the state `mouseIsDown`.
  drag : ℕ → Option Index → Method C V
  drag target cell b =
      let f = b.owner in
      let same = elim f.last_target as (λ _. Bool) [ none ↦ false | some t ↦ t == target ] in
      if same then (b, handled) else (
        with_fields
            (record (if is_cell_selectable f cell then end_at cell f else f) {
              last_target = some target;
            })
            b,
        handled,
      )

  -- `keyPress` of the state `selected`, with the keys ctrl and meta, and whether the character starts
  -- an edit.
  type_key : Bool → Bool → V → Method C V
  unfolding start_edit
  type_key ctrl_or_meta starts key b =
      if ctrl_or_meta then (b, ignored) else elim (selected_data_cell b.owner) [
        | none ↦ (b, ignored)
        | some c ↦
            if env.is_editable c && starts
            then (
              start_edit env (with_fields (record b.owner { edit_value = some key }) b),
              handled,
            )
            else (b, ignored)
      ]

  -- `insertNewline` and the like of the state `editing`: the value is set, and the state `selected`
  -- goes on, unless the value is not valid.
  confirm_then : (TableData C V → TableData C V) → Method C V
  unfolding confirm_edit goto
  confirm_then next b =
      let (f, valid) = confirm_edit env b.owner in
      (if valid then next (goto env selected (with_fields f b)) else with_fields f b, handled)

  -- `mouseDown` of the state `editing`; an element outside the table's cells is no cell. A cell that is
  -- none of the table's is not to be had from `_cellForTarget`.
  press_editing : Press → Method C V
  unfolding confirm_edit select_cell goto
  press_editing p b =
      if is_cell_selectable b.owner p.cell
      then (let (f, valid) = confirm_edit env b.owner in
          if valid
          then (
            (let b' = goto env selected (with_fields f b) in
                with_fields (select_cell p.cell true b'.owner).0 b'),
            handled,
          )
          else (let (again, valid') = confirm_edit env f in
              (with_fields again b, if valid' then ignored else handled)))
      else (b, ignored)

  press_read_only : Press → Method C V
  unfolding select_cell goto
  press_read_only p b =
      if is_cell_selectable b.owner p.cell
      then (
        (let b' = goto env selected b in with_fields (select_cell p.cell true b'.owner).0 b'),
        handled,
      )
      else (b, ignored)

  unfoldable pub go_on : Direction → TableData C V → TableData C V
  unfolding moves invoke
  go_on d b = (invoke moves d b).0

  tab_on : Bool → TableData C V → TableData C V
  unfolding tabs invoke
  tab_on back b = (invoke tabs back b).0

  selected_method : Message V → Option (Method C V)
  unfolding press_selected release moves modify_selection beside_cell tabs start_edit wipe_cell
      type_key
  selected_method (mouse_down p) = some (press_selected p)
  selected_method (mouse_move t c) = none
  selected_method mouse_up = some release
  selected_method double_click = some (λ b. (start_edit env b, ignored))
  selected_method (move d) = moves selected d
  selected_method (move_and_modify_selection d) =
      some (λ b. modify_selection (beside_cell d b.owner.selection_end) b)
  selected_method insert_newline = some (λ b. (start_edit env b, ignored))
  selected_method insert_tab = tabs selected false
  selected_method insert_backtab = tabs selected true
  selected_method delete_backward = some (λ b. (wipe_cell env b, handled))
  selected_method delete_forward = some (λ b. (wipe_cell env b, handled))
  -- `resignKeyResponder` pops the view, whose `willLoseKeyResponder` goes to the state `loaded`
  selected_method cancel = some (λ b. (goto env loaded b, handled))
  selected_method (key_press ctrl_or_meta starts key) = some (type_key ctrl_or_meta starts key)

  read_only_method : Message V → Option (Method C V)
  unfolding press_read_only go_on tab_on goto
  read_only_method (mouse_down p) = some (press_read_only p)
  read_only_method (move d) = some (λ b. (go_on d (goto env selected b), ignored))
  read_only_method insert_newline = some (λ b. (go_on down (goto env selected b), ignored))
  read_only_method insert_tab = some (λ b. (tab_on false (goto env selected b), ignored))
  read_only_method insert_backtab = some (λ b. (tab_on true (goto env selected b), ignored))
  read_only_method delete_backward = some (λ b. (goto env selected b, handled))
  read_only_method cancel = some (λ b. (goto env selected b, handled))
  read_only_method _ = none

  editing_method : Message V → Option (Method C V)
  unfolding press_editing confirm_then go_on tab_on goto
  editing_method (mouse_down p) = some (press_editing p)
  editing_method (move left) = some (λ b. (b, allow_default))
  editing_method (move right) = some (λ b. (b, allow_default))
  editing_method insert_newline = some (confirm_then (go_on down))
  editing_method insert_tab = some (confirm_then (tab_on false))
  editing_method insert_backtab = some (confirm_then (tab_on true))
  editing_method cancel = some (λ b. (goto env selected b, handled))
  editing_method _ = none

  methods : State → Message V → Option (Method C V)
  unfolding presses drag releases goto invoke selected_method read_only_method editing_method
  methods loaded (mouse_down p) = presses loaded p
  methods loaded _ = none
  methods mouse_is_down (mouse_move t c) = some (drag t c)
  methods mouse_is_down mouse_up = some (λ b. invoke releases tt (goto env selected b))
  methods mouse_is_down _ = none
  methods selected msg = selected_method msg
  methods selecting_read_only msg = read_only_method msg
  methods editing msg = editing_method msg

  -- A message to the view, whose proxy methods hand it to the current state.
  unfoldable pub send : Message V → Method C V
  unfolding methods invoke
  send msg b = invoke methods msg b
