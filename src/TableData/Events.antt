-- ===== src/TableData/Events.antt =====
-- views/table_data_view.js: the events that reach the view, in turn.
use flame_js.Prelude.{Bool, false, none, List, [], ◌∷◌, if◌then◌else◌}
use flame_js.TableData.{DataCells, Fields, confirm_edit}
use flame_js.TableData.States.{loaded, selected, Message, down, TableData, with_fields, goto}
use flame_js.TableData.Methods.{go_on, send}

pub data Event (V : Type 0) : Type 0 where
  message : Message V → Event V
  lose_key_responder : Event V
  -- the menu of options closes, without a choice or with one
  menu_closes : Event V
  option_chosen : V → Event V
  -- the user types in the edit field
  typed : V → Event V

module _ {C V : Type 0} (env : DataCells C V) (delegate_mouse_up : Bool) where
  -- `didSelectMenuItem`, called with `value || ''` after the menu has closed.
  unfoldable pub did_select_menu_item : V → TableData C V → TableData C V
  unfolding confirm_edit go_on
  did_select_menu_item v b =
      go_on env delegate_mouse_up down
        (with_fields (confirm_edit env (record b.owner { edit_field = v })).0 b)

  -- `close` of the menu of options.
  unfoldable pub close_menu : TableData C V → TableData C V
  unfolding goto
  close_menu b = goto env selected (with_fields (record b.owner { menu_open = false }) b)

  -- An open menu is modal and has the keys, so that no message reaches the view, which is not the key
  -- responder then either.
  unfoldable pub step : TableData C V → Event V → TableData C V
  unfolding send close_menu did_select_menu_item goto
  step b (message msg) = if b.owner.menu_open then b else (send env delegate_mouse_up msg b).0
  step b lose_key_responder = if b.owner.menu_open then b else goto env loaded b
  step b menu_closes = if b.owner.menu_open then close_menu b else b
  step b (typed v) =
      if b.owner.field_shown then with_fields (record b.owner { edit_field = v }) b else b
  step b (option_chosen v) = if b.owner.menu_open then did_select_menu_item v (close_menu b) else b

  unfoldable pub run : TableData C V → List (Event V) → TableData C V
  run b [] = b
  run b (e ∷ es) = run (step b e) es

  -- `render` goes to the state `loaded`.
  unfoldable pub init : Fields C V → TableData C V
  unfolding goto
  init f = goto env loaded (record { current = none; owner = f })
