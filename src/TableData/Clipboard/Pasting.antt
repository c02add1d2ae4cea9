-- ===== src/TableData/Clipboard/Pasting.antt =====
-- views/table_data_view.js: what a paste does to each cell.
use flame_js.Prelude.{
  ℕ, zero, suc, ◌+◌, ◌≡◌, ◌<◌, refl, ap, ◌∙◌, Bool, true, false, not, ◌&&◌, Option, none, some,
  List, [], ◌∷◌, arith, ◌==◌, ltb, get_elem?, Option-cases, inl, inr, if_keeps,
}
use mathlib.Core.Path.{subst₂}
use flame_js.Table.Controller.{Grid}
use flame_js.Table.Headers.{Index}
use flame_js.Table.Push.{same_index}
use flame_js.TableData.{Text, DataCells, Fields, data_cell_at, validate_and_set}
use flame_js.TableData.Storing.{set_to, validate_and_set-other, validate_and_set_self}
use flame_js.TableData.Clipboard.{
  trim, fields_of, Pasted, set_pasted, paste_to, option_by_title, paste_field, paste_line,
  paste_lines, paste_value, copied, copied_row, copied_rows, strip, value_for_copy, first_cell,
  row_count, column_count,
}
use flame_js.TableData.Clipboard.Texts.{PlainSelection, fields_of-value_for_copy}

module _ {C V : Type 0} (env : DataCells C V) where
  -- The data of a cell after a paste.
  abbrev data_of : Pasted C V → Index → Option C
  data_of p k = data_cell_at p.cells (some k)

  data_of-set_pasted :
      (v : V) (i k : Index) (p : Pasted C V)
      → data_of (set_pasted env v i p) k
        ≡ data_cell_at (validate_and_set env v i p.cells p.dirty_cells).cells (some k)
  unfolding set_pasted
  data_of-set_pasted v i k p = ground arith

  set_pasted-other :
      (v : V) (i k : Index) (p : Pasted C V)
      → same_index i k ≡ false
      → data_of (set_pasted env v i p) k ≡ data_of p k
  set_pasted-other v i k p ne =
      data_of-set_pasted v i k p ∙ validate_and_set-other env v i k p.cells p.dirty_cells ne

  module _ (same : Text → Text → Bool) where
    paste_to-other :
        (c : C) (t : Text) (i k : Index) (p : Pasted C V)
        → same_index i k ≡ false
        → data_of (paste_to env same c t i p) k ≡ data_of p k
    unfolding paste_to
    paste_to-other c t i k p ne = elim (Option-cases (env.options c)) [
      | inl n ↦ ground (arith, n, set_pasted-other (env.of_text t) i k p ne)
      | inr (os, e) ↦ elim (Option-cases (option_by_title env same t os)) [
        | inl n ↦ ground (arith, e, n)
        | inr (o, n) ↦ ground (arith, e, n, set_pasted-other o.value i k p ne)
      ]
    ]

    paste_field-other :
        (t : Text) (i k : Index) (p : Pasted C V)
        → same_index i k ≡ false
        → data_of (paste_field env same t i p) k ≡ data_of p k
    unfolding paste_field
    paste_field-other t i k p ne = elim (Option-cases (data_of p i)) [
      | inl n ↦ ground (arith, n)
      | inr (c, e) ↦ ground (arith, e, paste_to-other c t i k p ne)
    ]

    paste_line-other :
        (i j : ℕ) (ts : List Text) (k l : ℕ) (p : Pasted C V)
        → (i == k && not (ltb l j)) ≡ false
        → data_of (paste_line env same i j ts p) (k, l) ≡ data_of p (k, l)
    unfolding paste_line
    paste_line-other i j [] k l p away = refl
    paste_line-other i j (t ∷ ts) k l p away =
        paste_line-other i (suc j) ts k l (paste_field env same t (i, j) p) (ground arith)
        ∙ paste_field-other t (i, j) (k, l) p (ground arith)

    paste_lines-other :
        (rows i j : ℕ) (ls : List (List Text)) (k l : ℕ) (p : Pasted C V)
        → k < i
        → data_of (paste_lines env same rows i j ls p) (k, l) ≡ data_of p (k, l)
    unfolding paste_lines
    paste_lines-other rows i j [] k l p above = refl
    paste_lines-other rows i j (ts ∷ ls) k l p above =
        paste_lines-other rows (suc i) j ls k l _ (omega arith)
        ∙ if_keeps (λ (q : Pasted C V). data_of q (k, l) ≡ data_of p (k, l)) (ltb i rows)
            (λ _. paste_line-other i j ts k l p (ground arith)) (λ _. refl)

  -- A cell that takes a pasted text as it is.
  pub record TakesText (c : C) : Type 0 where
    pub editable : env.is_editable c ≡ true
    pub pastable : env.is_pastable c ≡ true
    pub no_options : env.options c ≡ none

  module _ (same : Text → Text → Bool) (c : C) (takes : TakesText c) (t : Text) where
    paste_field_self :
        (i : Index) (p : Pasted C V)
        → data_of p i ≡ some c
        → data_of (paste_field env same t i p) i ≡ some (set_to env (env.of_text t) i c)
    unfolding paste_field
    paste_field_self i p e = ground (
      arith,
      e,
      takes,
      data_of-set_pasted (env.of_text t) i i p,
      validate_and_set_self env (env.of_text t) i p.cells p.dirty_cells c e,
    )

    -- At column l, which is that of the field b; the cells after it leave it alone.
    paste_line-at :
        (i j l : ℕ) (ts : List Text) (b : ℕ) (p : Pasted C V)
        → l ≡ j + b
        → get_elem? ts b ≡ some t
        → data_of p (i, l) ≡ some c
        → data_of (paste_line env same i j ts p) (i, l) ≡ some (set_to env (env.of_text t) (i, l) c)
    unfolding paste_line
    paste_line-at i j l [] b p at g e = absurd cc
    paste_line-at i j l (u ∷ ts) zero p at g e =
        let here : l ≡ j = omega arith in
        let first : t ≡ u = ground arith in
        let stored =
          subst₂
            (λ x y.
              data_of (paste_field env same y (i, x) p) (i, l)
              ≡ some (set_to env (env.of_text t) (i, l) c))
            here first (paste_field_self (i, l) p e) in
        paste_line-other same i (suc j) ts i l (paste_field env same u (i, j) p) (ground arith)
        ∙ stored
    paste_line-at i j l (u ∷ ts) (suc b) p at g e =
        paste_line-at i (suc j) l ts b (paste_field env same u (i, j) p) (omega arith) g
          (paste_field-other same u (i, j) (i, l) p (ground arith) ∙ e)

    paste_lines-at :
        (rows i j k l : ℕ) (ls : List (List Text)) (a b : ℕ) {ts : List Text} (p : Pasted C V)
        → k ≡ i + a
        → l ≡ j + b
        → k < rows
        → get_elem? ls a ≡ some ts
        → get_elem? ts b ≡ some t
        → data_of p (k, l) ≡ some c
        → data_of (paste_lines env same rows i j ls p) (k, l)
          ≡ some (set_to env (env.of_text t) (k, l) c)
    unfolding paste_lines
    paste_lines-at rows i j k l [] a b p row column inside line field e = absurd cc
    paste_lines-at rows i j k l (us ∷ ls) zero b {ts} p row column inside line field e =
        let here : k ≡ i = omega arith in
        let first : ts ≡ us = ground arith in
        paste_lines-other same rows (suc i) j ls k l _ (omega arith)
        ∙ if_keeps
            (λ (q : Pasted C V). data_of q (k, l) ≡ some (set_to env (env.of_text t) (k, l) c))
            (ltb i rows)
            (λ _.
              subst₂
                (λ x y.
                  data_of (paste_line env same x j y p) (k, l)
                  ≡ some (set_to env (env.of_text t) (k, l) c))
                here first (paste_line-at k j l ts b p column field e))
            (λ out. absurd (ground arith))
    paste_lines-at rows i j k l (us ∷ ls) (suc a) b p row column inside line field e =
        paste_lines-at rows (suc i) j k l ls a b _ (omega arith) column inside line field (
          if_keeps (λ (q : Pasted C V). data_of q (k, l) ≡ some c) (ltb i rows)
            (λ _. paste_line-other same i j us k l p (ground arith) ∙ e) (λ _. e))

get_elem?-copied_row :
    {C V : Type 0} (env : DataCells C V) (g : Grid C) (i j n y l : ℕ)
    → y < n
    → l ≡ j + y
    → get_elem? (copied_row env g i j n) y ≡ some (copied env g (i, l))
unfolding copied_row
get_elem?-copied_row env g i j zero y l less at = absurd (omega arith)
get_elem?-copied_row env g i j (suc n) zero l less at =
    let here : j ≡ l = omega arith in ap (λ x. some (copied env g (i, x))) here
get_elem?-copied_row env g i j (suc n) (suc y) l less at =
    get_elem?-copied_row env g i (suc j) n y l (omega arith) (omega arith)

get_elem?-copied_rows :
    {C V : Type 0} (env : DataCells C V) (g : Grid C) (i j m n x k : ℕ)
    → x < m
    → k ≡ i + x
    → get_elem? (copied_rows env g i j m n) x ≡ some (copied_row env g k j n)
unfolding copied_rows
get_elem?-copied_rows env g i j zero n x k less at = absurd (omega arith)
get_elem?-copied_rows env g i j (suc m) n zero k less at =
    let here : i ≡ k = omega arith in ap (λ x. some (copied_row env g x j n)) here
get_elem?-copied_rows env g i j (suc m) n (suc x) k less at =
    get_elem?-copied_rows env g (suc i) j m n x k (omega arith) (omega arith)

module _ {C V : Type 0} (env : DataCells C V) (same : Text → Text → Bool) where
  paste_value-lines :
      (value : Text) (s e : Index) (f : Fields C V)
      → f.one_object ≡ true
      → (paste_value env same value s e f).cells
        ≡ (paste_lines env same f.rows s.0 s.1
            (fields_of (trim value))
            (record { cells = f.cells; dirty_cells = f.dirty_cells; failed = [] })).cells
  unfolding paste_value
  paste_value-lines value s e f one = ground arith

  -- The cells of a selection from a to b are copied, and pasted to a single selected cell s, perhaps of
  -- another table: where the texts of the selected cells have no tab, newline or carriage return, and the
  -- text for the clipboard neither begins nor ends with white space other than a tab, each cell of the
  -- target, x rows below and y columns right of s, that takes texts as they are is given the text of the
  -- cell that is x rows below and y columns right of the first copied one: where that is another value
  -- than the cell's and valid for it, the cell is what the delegate makes of it, otherwise it is as it
  -- was.
  pub paste_copied :
      (g : Grid C) (a b s e : Index) (f : Fields C V) (x y : ℕ) (c : C)
      → PlainSelection env g a b
      → strip (value_for_copy env g a b) ≡ value_for_copy env g a b
      → f.one_object ≡ true
      → x < row_count a b
      → y < column_count a b
      → s.0 + x < f.rows
      → TakesText env c
      → data_cell_at f.cells (some (s.0 + x, s.1 + y)) ≡ some c
      → data_cell_at
          (paste_value env same (value_for_copy env g a b) s e f).cells
          (some (s.0 + x, s.1 + y))
        ≡ some (
            set_to env
              (env.of_text (copied env g ((first_cell a b).0 + x, (first_cell a b).1 + y)))
              (s.0 + x, s.1 + y)
              c)
  paste_copied g a b s e f x y c plain ends one row column inside takes at =
      let (i, j) = first_cell a b in
      let rows = copied_rows env g i j (row_count a b) (column_count a b) in
      let lines = fields_of-value_for_copy env g a b plain ends in
      let p : Pasted C V = record { cells = f.cells; dirty_cells = f.dirty_cells; failed = [] } in
      ap (λ cells. data_cell_at cells (some (s.0 + x, s.1 + y)))
        (paste_value-lines (value_for_copy env g a b) s e f one)
      ∙ paste_lines-at env same c takes (copied env g (i + x, j + y)) f.rows s.0 s.1 (s.0 + x)
          (s.1 + y) (fields_of (trim (value_for_copy env g a b))) x y p refl refl inside
          (ap (λ ls. get_elem? ls x) lines
            ∙ get_elem?-copied_rows env g i j (row_count a b) (column_count a b) x (i + x) row refl)
          (get_elem?-copied_row env g (i + x) j (column_count a b) y (j + y) column refl) at
