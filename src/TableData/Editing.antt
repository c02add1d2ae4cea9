-- ===== src/TableData/Editing.antt =====
-- views/table_data_view.js: edits of a cell, from the key that opens it to the one that confirms it.
use flame_js.Prelude.{
  ◌≡◌, ap, ◌∙◌, Bool, true, false, ◌&&◌, Option, none, some, List, [], ◌∷◌, ◌++◌, arith,
  if◌then◌else◌,
}
use flame_js.Table.Headers.{Index}
use flame_js.Table.Controller.{set_cell}
use flame_js.TableData.{
  mark_dirty, Choice, DataCells, Fields, cell_down, is_cell_selectable, data_cell_at,
  selected_data_cell,
}
use flame_js.TableData.Storing.{data_cell_at-set_cell}
use flame_js.TableData.States.{selected, editing, in_state, insert_newline, key_press, move, down}
use flame_js.TableData.Events.{Event, message, typed, menu_closes, run, step}

-- The enter key, a value typed in and the enter key again.
abbrev pub edits : {V : Type 0} → V → List (Event V)
edits v = message insert_newline ∷ typed v ∷ message insert_newline ∷ []

module _ {C V : Type 0} (env : DataCells C V) (d : Bool) where
  -- A cell that is edited in the edit field.
  pub record PlainCell (c : C) : Type 0 where
    pub editable : env.is_editable c ≡ true
    pub no_options : env.options c ≡ none
    pub default_editor : env.show_editor c ≡ false

  module _ (f : Fields C V) (i : Index) (c : C) (v : V) (closed : f.menu_open ≡ false)
      (here : f.selected_cell ≡ some i) (at_cell : data_cell_at f.cells (some i) ≡ some c)
      (plain : PlainCell c) where
    -- The view with the edit field open on the cell and the value in it.
    abbrev with_edit : Fields C V
    with_edit = record f {
      selection_end = f.selected_cell;
      one_object = true;
      edit_field = v;
      edit_value = none;
      field_shown = true;
    }

    data_here : selected_data_cell f ≡ some c
    data_here = ap (data_cell_at f.cells) here ∙ at_cell

    edit_opens :
        step env d (step env d (in_state selected f) (message insert_newline)) (typed v)
        ≡ in_state editing with_edit
    unfolding step
    edit_opens = ground (arith, closed, data_here, plain)

    -- The row below, where there is one and selecting is allowed.
    abbrev next_cell : Option Index
    next_cell =
        if f.allow_selection && is_cell_selectable f (cell_down i) then cell_down i else some i

    confirm :
        env.same_value (env.editable_value c) v ≡ false
        → env.validate c v ≡ true
        → let b = step env d (in_state editing with_edit) (message insert_newline) in
          (b.current ≡ some selected)
          × (b.owner.cells ≡ set_cell i (env.cell_updated c v i).0 f.cells)
          × (b.owner.dirty_cells
              ≡ (if (env.cell_updated c v i).1 then mark_dirty i f.dirty_cells else f.dirty_cells))
          × (b.owner.selected_cell ≡ next_cell)
          × (b.owner.field_shown ≡ false)
    unfolding step
    confirm changed valid = ground (arith, closed, here, at_cell)

    reject :
        env.same_value (env.editable_value c) v ≡ false
        → env.validate c v ≡ false
        → step env d (in_state editing with_edit) (message insert_newline)
          ≡ in_state editing (record with_edit { field_invalid = true })
    unfolding step
    reject changed invalid = ground (arith, closed, here, at_cell)

    -- In the state `selected`, with a plain cell selected and no menu open: the enter key, a valid value
    -- other than the cell's and the enter key again leave the cell that the delegate makes of it, and
    -- select the cell below, where there is one and selecting is allowed; the edit field is closed. If the
    -- delegate says that the cell is dirty, it is passed on to be updated on the screen, after those that
    -- were dirty, and no dirty cell is left; otherwise the dirty cells are as they were.
    pub run-edits :
        env.same_value (env.editable_value c) v ≡ false
        → env.validate c v ≡ true
        → let b = run env d (in_state selected f) (edits v) in
          (b.current ≡ some selected)
          × (data_cell_at b.owner.cells (some i) ≡ some (env.cell_updated c v i).0)
          × (b.owner.dirty_cells ≡ (
              if (env.cell_updated c v i).1
              then record {
                waiting = [];
                updated = f.dirty_cells.updated ++ (f.dirty_cells.waiting ++ i ∷ []) ∷ [];
              }
              else f.dirty_cells))
          × (b.owner.selected_cell ≡ next_cell)
          × (b.owner.field_shown ≡ false)
    unfolding run
    run-edits changed valid =
        let (at_end, stored, dirty, moved, hidden) = confirm changed valid in
        rw edit_opens (
          at_end,
          ap (λ g. data_cell_at g (some i)) stored
              ∙ data_cell_at-set_cell i c (env.cell_updated c v i).0 f.cells at_cell,
          dirty,
          moved,
          hidden,
        )

    -- In the state `selected`, with a plain cell selected and no menu open: the enter key, a value that
    -- is not valid and the enter key again leave the view in the state `editing`, with the edit field
    -- marked and the value in it; the cells, the dirty ones and the selected one are as they were.
    pub run-edits_invalid :
        env.same_value (env.editable_value c) v ≡ false
        → env.validate c v ≡ false
        → run env d (in_state selected f) (edits v)
          ≡ in_state editing (record with_edit { field_invalid = true })
    unfolding run
    run-edits_invalid changed invalid = rw edit_opens (reject changed invalid)

  module _ (f : Fields C V) (i : Index) (c : C) (v : V) (closed : f.menu_open ≡ false)
      (here : f.selected_cell ≡ some i) (at_cell : data_cell_at f.cells (some i) ≡ some c) where
    -- The view after a character was typed on a cell with options and the menu was closed.
    abbrev left_over : Fields C V
    left_over = record f {
      selection_end = f.selected_cell;
      one_object = true;
      edit_value = some v;
      menu_open = false;
      field_shown = false;
      field_invalid = false;
    }

    key_kept :
        {os : List (Choice V)}
        → env.is_editable c ≡ true
        → env.show_editor c ≡ false
        → env.options c ≡ some os
        → step env d
            (step env d (in_state selected f) (message (key_press false true v)))
            menu_closes
          ≡ in_state selected left_over
    unfolding step
    key_kept e s o = ground (arith, closed, here, at_cell, ap (data_cell_at f.cells) here)

    opens_stale :
        (k : C)
        → f.allow_selection ≡ true
        → is_cell_selectable f (cell_down i) ≡ true
        → data_cell_at f.cells (cell_down i) ≡ some k
        → PlainCell k
        → let b =
            step env d
              (step env d (in_state selected left_over) (message (move down)))
              (message insert_newline) in
          (b.current ≡ some editing)
          × (b.owner.selected_cell ≡ cell_down i)
          × (b.owner.edit_field ≡ v)
    unfolding step
    opens_stale k a t e p = ground (arith, here, a, t, e, p)

    -- In the state `selected`, with no menu open and the cell below selectable and plain: a character
    -- that starts an edit is typed on a cell with options, the menu is closed with no choice, and the
    -- cell below is opened for an edit. The edit field has that character, and not the cell's value.
    pub stale_edit_value :
        {os : List (Choice V)} (k : C)
        → env.is_editable c ≡ true
        → env.show_editor c ≡ false
        → env.options c ≡ some os
        → f.allow_selection ≡ true
        → is_cell_selectable f (cell_down i) ≡ true
        → data_cell_at f.cells (cell_down i) ≡ some k
        → PlainCell k
        → let b = run env d (in_state selected f) (
            message (key_press false true v)
            ∷ menu_closes
            ∷ message (move down)
            ∷ message insert_newline
            ∷ []) in
          (b.current ≡ some editing)
          × (b.owner.selected_cell ≡ cell_down i)
          × (b.owner.edit_field ≡ v)
    unfolding run
    stale_edit_value k e s o a t q p = rw (key_kept e s o) (opens_stale k a t q p)
