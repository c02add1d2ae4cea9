-- ===== src/TableData/Selection.antt =====
-- views/table_data_view.js: what is selected in each state.
use mathlib.Core.Path.{subst}
use flame_js.Prelude.{
  ◌≡◌, sym, Bool, true, false, not, ◌&&◌, Option, none, some, List, [], ◌∷◌, arith, if_keeps,
}
use flame_js.EventManager.{Answer}
use flame_js.Table.Headers.{Index}
use flame_js.TableData.{DataCells, Fields, end_at, is_cell_selectable}
use flame_js.TableData.States.{
  in_state, State, loaded, mouse_is_down, selected, selecting_read_only, editing, Message,
  TableData, mouse_down, mouse_move, mouse_up, double_click, move, move_and_modify_selection,
  insert_newline, insert_tab, insert_backtab, delete_backward, delete_forward, cancel, key_press,
  left, right, up, down, Press,
}
use flame_js.TableData.Methods.{starts_edit, send}
use flame_js.TableData.Events.{
  typed, Event, message, lose_key_responder, menu_closes, option_chosen, close_menu,
  did_select_menu_item, step, run, init,
}

abbrev pub has_selection : Option State → Bool
has_selection (some mouse_is_down) = true
has_selection (some selected) = true
has_selection (some selecting_read_only) = true
has_selection (some editing) = true
has_selection _ = false

abbrev pub is_editing : Option State → Bool
is_editing (some editing) = true
is_editing _ = false

abbrev pub is_reading : Option State → Bool
is_reading (some selecting_read_only) = true
is_reading _ = false

abbrev pub is_some : {A : Type 0} → Option A → Bool
is_some none = false
is_some (some a) = true

-- An edit, or the reading of a cell, is of one cell.
abbrev pub OneCell : Option State → Option Index → Option Index → Type 0
OneCell (some editing) c e = e ≡ c
OneCell (some selecting_read_only) c e = e ≡ c
OneCell _ c e = Unit

module _ {C V : Type 0} where
  pub record SelectionOk (b : TableData C V) : Type 0 where
    pub kept : is_some b.owner.selected_cell ≡ has_selection b.current
    pub within : is_cell_selectable b.owner b.owner.selected_cell ≡ has_selection b.current
    pub ended : is_cell_selectable b.owner b.owner.selection_end ≡ has_selection b.current
    pub one_cell : OneCell b.current b.owner.selected_cell b.owner.selection_end
    pub menu : (b.owner.menu_open && not (is_editing b.current)) ≡ false
    pub field : (b.owner.field_shown && not (is_editing b.current)) ≡ false
    pub shown : (is_some b.owner.shown_value && not (is_reading b.current)) ≡ false

and_right : (a b : Bool) → (a && b) ≡ true → b ≡ true
and_right a b h = ground arith

module _ {C V : Type 0} (env : DataCells C V) (d : Bool) where
  loaded-SelectionOk :
      (f : Fields C V) (msg : Message V)
      → SelectionOk (in_state loaded f)
      → SelectionOk (send env d msg (in_state loaded f)).0
  unfolding send
  loaded-SelectionOk f msg ok = ground arith

  mouse_is_down-SelectionOk :
      (f : Fields C V) (msg : Message V)
      → SelectionOk (in_state mouse_is_down f)
      → SelectionOk (send env d msg (in_state mouse_is_down f)).0
  unfolding send
  mouse_is_down-SelectionOk f msg ok = ground arith

  shifted :
      (f : Fields C V) (p : Press)
      → (p.shift_key && is_cell_selectable f p.cell) ≡ true
      → SelectionOk (in_state selected f)
      → SelectionOk (in_state selected (end_at p.cell f))
  shifted f p h ok = record {
    kept = ok.kept;
    within = ok.within;
    ended = and_right p.shift_key (is_cell_selectable f p.cell) h;
    one_cell = tt;
    menu = ok.menu;
    field = ok.field;
    shown = ok.shown;
  }

  -- Stepped at a state and with no menu open, as messages come.
  selected-SelectionOk :
      (f : Fields C V) (msg : Message V)
      → f.menu_open ≡ false
      → SelectionOk (in_state selected f)
      → SelectionOk (send env d msg (in_state selected f)).0
  unfolding send
  selected-SelectionOk f (mouse_down p) m ok =
      let kept = λ (r : TableData C V × Answer). SelectionOk r.0 in
      if_keeps kept (starts_edit env d p f) (λ _. ground arith)
        (λ _.
          if_keeps kept (p.shift_key && is_cell_selectable f p.cell) (λ h. shifted f p h ok)
            (λ _. if_keeps kept p.in_selection (λ _. ok) (λ _. ground arith)))
  selected-SelectionOk f (mouse_move t c) m ok = ground arith
  selected-SelectionOk f mouse_up m ok = ground arith
  selected-SelectionOk f double_click m ok = ground arith
  selected-SelectionOk f (move left) m ok = ground arith
  selected-SelectionOk f (move right) m ok = ground arith
  selected-SelectionOk f (move up) m ok = ground arith
  selected-SelectionOk f (move down) m ok = ground arith
  selected-SelectionOk f (move_and_modify_selection left) m ok = ground arith
  selected-SelectionOk f (move_and_modify_selection right) m ok = ground arith
  selected-SelectionOk f (move_and_modify_selection up) m ok = ground arith
  selected-SelectionOk f (move_and_modify_selection down) m ok = ground arith
  selected-SelectionOk f insert_newline m ok = ground arith
  selected-SelectionOk f insert_tab m ok = ground arith
  selected-SelectionOk f insert_backtab m ok = ground arith
  selected-SelectionOk f delete_backward m ok = ground arith
  selected-SelectionOk f delete_forward m ok = ground arith
  selected-SelectionOk f cancel m ok = ground arith
  selected-SelectionOk f (key_press x y v) m ok = ground arith

  reading-SelectionOk :
      (f : Fields C V) (msg : Message V)
      → f.menu_open ≡ false
      → SelectionOk (in_state selecting_read_only f)
      → SelectionOk (send env d msg (in_state selecting_read_only f)).0
  unfolding send
  reading-SelectionOk f msg m ok = ground arith

  editing-SelectionOk :
      (f : Fields C V) (msg : Message V)
      → f.menu_open ≡ false
      → SelectionOk (in_state editing f)
      → SelectionOk (send env d msg (in_state editing f)).0
  unfolding send
  editing-SelectionOk f msg m ok = ground arith

  send-SelectionOk :
      (b : TableData C V) (msg : Message V)
      → b.owner.menu_open ≡ false
      → SelectionOk b
      → SelectionOk (send env d msg b).0
  send-SelectionOk b msg m ok = by_state b.current b.owner msg m ok
    where
      by_state :
          (s : Option State) (f : Fields C V) (msg : Message V)
          → f.menu_open ≡ false
          → SelectionOk (record { current = s; owner = f })
          → SelectionOk (send env d msg (record { current = s; owner = f })).0
      by_state none f msg m ok = unfold send in ok
      by_state (some loaded) f msg m ok = loaded-SelectionOk f msg ok
      by_state (some mouse_is_down) f msg m ok = mouse_is_down-SelectionOk f msg ok
      by_state (some selected) f msg m ok = selected-SelectionOk f msg m ok
      by_state (some selecting_read_only) f msg m ok = reading-SelectionOk f msg m ok
      by_state (some editing) f msg m ok = editing-SelectionOk f msg m ok

  -- An open menu is that of the state `editing`.
  menu_is_editing : (s : Option State) → (true && not (is_editing s)) ≡ false → s ≡ some editing
  menu_is_editing s h = ground arith

  closing :
      (f : Fields C V)
      → SelectionOk (in_state editing f)
      → SelectionOk (close_menu env d (in_state editing f))
  unfolding close_menu
  closing f ok = ground arith

  choosing :
      (v : V) (f : Fields C V)
      → SelectionOk (in_state editing f)
      → SelectionOk (did_select_menu_item env d v (close_menu env d (in_state editing f)))
  unfolding close_menu did_select_menu_item
  choosing v f ok = ground arith

  -- What holds after the menu is dealt with in the state `editing` holds wherever it is open.
  from_editing :
      (g : TableData C V → TableData C V)
      → ((f : Fields C V) → SelectionOk (in_state editing f) → SelectionOk (g (in_state editing f)))
      → (b : TableData C V) → b.owner.menu_open ≡ true
      → SelectionOk b
      → SelectionOk (g b)
  from_editing g keeps b o ok =
      let kept = λ (s : Option State).
        (f : Fields C V)
        → SelectionOk (record { current = s; owner = f })
        → SelectionOk (g (record { current = s; owner = f })) in
      subst kept (sym (menu_is_editing b.current (ground (arith, o, ok.menu)))) keeps b.owner ok

  typing :
      (v : V) (b : TableData C V)
      → SelectionOk b
      → SelectionOk (record b { owner = record b.owner { edit_field = v } })
  typing v b ok = record {
    kept = ok.kept;
    within = ok.within;
    ended = ok.ended;
    one_cell = ok.one_cell;
    menu = ok.menu;
    field = ok.field;
    shown = ok.shown;
  }

  step-SelectionOk :
      (b : TableData C V) (e : Event V) → SelectionOk b → SelectionOk (step env d b e)
  unfolding step
  step-SelectionOk b (message msg) ok =
      if_keeps SelectionOk b.owner.menu_open (λ _. ok) (λ o. send-SelectionOk b msg o ok)
  step-SelectionOk b lose_key_responder ok =
      if_keeps SelectionOk b.owner.menu_open (λ _. ok) (λ o. ground arith)
  step-SelectionOk b menu_closes ok =
      if_keeps SelectionOk b.owner.menu_open (λ o. from_editing (close_menu env d) closing b o ok)
        (λ _. ok)
  step-SelectionOk b (typed v) ok =
      if_keeps SelectionOk b.owner.field_shown (λ _. typing v b ok) (λ _. ok)
  step-SelectionOk b (option_chosen v) ok =
      if_keeps SelectionOk b.owner.menu_open
        (λ o.
          from_editing (λ c. did_select_menu_item env d v (close_menu env d c)) (choosing v) b o ok)
        (λ _. ok)

  run-SelectionOk :
      (es : List (Event V)) (b : TableData C V) → SelectionOk b → SelectionOk (run env d b es)
  unfolding run
  run-SelectionOk [] b ok = ok
  run-SelectionOk (e ∷ es) b ok = run-SelectionOk es (step env d b e) (step-SelectionOk b e ok)

  -- After any messages, changes of the key responder and choices from the menu of options, in a view
  -- that is rendered with no menu, edit field or text shown: in every state but `loaded` the selected
  -- cell and the end of the selection are cells of the table, and in `loaded` nothing is selected; an
  -- edit, or the reading of a read-only cell, is of the selected cell alone; and a menu or the edit field
  -- is open only in the state `editing`, a text is shown only in `selectingReadOnly`.
  pub run-init-SelectionOk :
      (f : Fields C V) (es : List (Event V))
      → f.menu_open ≡ false
      → f.field_shown ≡ false
      → f.shown_value ≡ none
      → SelectionOk (run env d (init env d f) es)
  unfolding init
  run-init-SelectionOk f es m s v = run-SelectionOk es (init env d f) (ground arith)
