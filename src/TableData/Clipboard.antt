-- ===== src/TableData/Clipboard.antt =====
-- views/table_data_view.js: copying the selected cells as a text, and pasting one.
pub mod Texts
pub mod Pasting
use flame_js.Prelude.{
  ℕ, zero, suc, ◌+◌, ◌-◌, min, max, Bool, true, false, not, ◌&&◌, ◌||◌, Option, none, some, List,
  [], ◌∷◌, ◌++◌, map, reverse, if◌then◌else◌, ◌==◌, ltb, leb,
}
use flame_js.Table.Headers.{Index}
use flame_js.Table.Controller.{Grid}
use flame_js.TableData.{
  DirtyCells, Text, Choice, DataCells, Fields, Stored, data_cell_at, validate_and_set,
}

abbrev pub tab : ℕ
tab = 9

abbrev pub newline : ℕ
newline = 10

abbrev pub carriage_return : ℕ
carriage_return = 13

-- `join` and `split` of texts, at a single character.
unfoldable pub join : ℕ → List Text → Text
join s [] = []
join s (t ∷ []) = t
join s (t ∷ u ∷ ts) = t ++ s ∷ join s (u ∷ ts)

abbrev pub add_first : ℕ → List Text → List Text
add_first c [] = (c ∷ []) ∷ []
add_first c (t ∷ ts) = (c ∷ t) ∷ ts

unfoldable pub split : ℕ → Text → List Text
split s [] = [] ∷ []
split s (c ∷ cs) = let rest = split s cs in if c == s then [] ∷ rest else add_first c rest

-- `value.replace(/\r\n|\r/g, '\n')`, from a place that is after a `\r` or not.
unfoldable pub normalize : Bool → Text → Text
normalize after_cr [] = []
normalize after_cr (c ∷ cs) =
    let ended = normalize true cs in
    let rest = normalize false cs in
    if c == carriage_return
    then newline ∷ ended
    else if after_cr && c == newline
    then rest
    else c ∷ rest

-- The white space of a regular expression other than the tab: `[^\S\t]`.
is_blank : ℕ → Bool
is_blank c =
    (leb 10 c && leb c 13)
    || c == 32
    || c == 160
    || c == 0x1680
    || (leb 0x2000 c && leb c 0x200A)
    || c == 0x2028
    || c == 0x2029
    || c == 0x202F
    || c == 0x205F
    || c == 0x3000
    || c == 0xFEFF

unfoldable pub strip_front : Text → Text
unfolding is_blank
strip_front [] = []
strip_front (c ∷ cs) = let rest = strip_front cs in if is_blank c then rest else c ∷ cs

unfoldable pub strip : Text → Text
unfolding strip_front
strip t = reverse (strip_front (reverse (strip_front t)))

-- `_trim`
unfoldable pub trim : Text → Text
unfolding normalize strip
trim t = strip (normalize false t)

abbrev pub has_char : ℕ → Text → Bool
has_char s [] = false
has_char s (c ∷ cs) = c == s || has_char s cs

-- `value.split('\n')` and `line.split('\t')`
abbrev pub fields_of : Text → List (List Text)
fields_of t = map (split tab) (split newline t)

module _ {C V : Type 0} (env : DataCells C V) where
  -- The text of a cell in `valueForCopy`.
  abbrev pub copied : Grid C → Index → Text
  copied g i = elim (data_cell_at g (some i)) as (λ _. Text) [
    | none ↦ []
    | some c ↦ if env.is_copyable c then env.to_text (env.editable_value c) else []
  ]

  -- `n` cells of a row, and `m` such rows.
  unfoldable pub copied_row : Grid C → ℕ → ℕ → ℕ → List Text
  copied_row g i j zero = []
  copied_row g i j (suc n) = copied g (i, j) ∷ copied_row g i (suc j) n

  unfoldable pub copied_rows : Grid C → ℕ → ℕ → ℕ → ℕ → List (List Text)
  unfolding copied_row
  copied_rows g i j zero n = []
  copied_rows g i j (suc m) n = copied_row g i j n ∷ copied_rows g (suc i) j m n

abbrev pub joined : List (List Text) → Text
joined rows = join newline (map (join tab) rows)

-- The corners of the selection, from `_forEachSelectedCell`.
abbrev pub first_cell : Index → Index → Index
first_cell (i, j) (k, l) = (min i k, min j l)

abbrev pub row_count : Index → Index → ℕ
row_count (i, j) (k, l) = suc (max i k - min i k)

abbrev pub column_count : Index → Index → ℕ
column_count (i, j) (k, l) = suc (max j l - min j l)

-- What a paste changes, with the values that `pasteDidFail` was called with.
pub record Pasted (C V : Type 0) : Type 0 where
  pub cells : Grid C
  pub dirty_cells : DirtyCells
  pub failed : List V

module _ {C V : Type 0} (env : DataCells C V) where
  -- `valueForCopy`, with a selection from a to b.
  unfoldable pub value_for_copy : Grid C → Index → Index → Text
  unfolding copied_rows join
  value_for_copy g a b =
      let (i, j) = first_cell a b in
      joined (copied_rows env g i j (row_count a b) (column_count a b))

  fail : V → Pasted C V → Pasted C V
  fail v p = record p { failed = p.failed ++ v ∷ [] }

  -- `if (!owner._validateAndSet(value, cell)) pasteFailed(value)`
  set_pasted : V → Index → Pasted C V → Pasted C V
  unfolding validate_and_set fail
  set_pasted v i p =
      let s = validate_and_set env v i p.cells p.dirty_cells in
      let p' = record p { cells = s.cells; dirty_cells = s.dirty_cells } in
      if s.valid then p' else fail v p'

  -- One value for a cell of a selected range.
  unfoldable pub paste_value_at : Text → Index → Pasted C V → Pasted C V
  unfolding set_pasted
  paste_value_at t i p = elim (data_cell_at p.cells (some i)) [
    | none ↦ p
    | some c ↦ if env.is_editable c && env.is_pastable c then set_pasted (env.of_text t) i p else p
  ]

  option_by_title : (Text → Text → Bool) → Text → List (Choice V) → Option (Choice V)
  option_by_title same t [] = none
  option_by_title same t (o ∷ os) =
      let rest = option_by_title same t os in if same o.title t then some o else rest

  -- A field of the pasted text, which stands for an option by its title.
  paste_to : (Text → Text → Bool) → C → Text → Index → Pasted C V → Pasted C V
  unfolding option_by_title set_pasted fail
  paste_to same c t i p = elim (env.options c) [
    | none ↦ set_pasted (env.of_text t) i p
    | some os ↦ elim (option_by_title same t os) [
      | none ↦ fail (env.of_text t) p
      | some o ↦ set_pasted o.value i p
    ]
  ]

  unfoldable pub paste_field : (Text → Text → Bool) → Text → Index → Pasted C V → Pasted C V
  unfolding paste_to
  paste_field same t i p = elim (data_cell_at p.cells (some i)) [
    | none ↦ p
    | some c ↦ if env.is_editable c && env.is_pastable c then paste_to same c t i p else p
  ]

  -- The loops over the fields of a line and over the lines, from a cell on; `rows` is how many rows the
  -- table has.
  unfoldable pub paste_line : (Text → Text → Bool) → ℕ → ℕ → List Text → Pasted C V → Pasted C V
  unfolding paste_field
  paste_line same i j [] p = p
  paste_line same i j (t ∷ ts) p = paste_line same i (suc j) ts (paste_field same t (i, j) p)

  unfoldable pub paste_lines :
      (Text → Text → Bool) → ℕ → ℕ → ℕ → List (List Text) → Pasted C V → Pasted C V
  unfolding paste_line
  paste_lines same rows i j [] p = p
  paste_lines same rows i j (l ∷ ls) p =
      paste_lines same rows (suc i) j ls (if ltb i rows then paste_line same i j l p else p)

  -- The loops over the cells of a selected range.
  paste_row_range : Text → ℕ → ℕ → ℕ → Pasted C V → Pasted C V
  unfolding paste_value_at
  paste_row_range t i j zero p = p
  paste_row_range t i j (suc n) p = paste_row_range t i (suc j) n (paste_value_at t (i, j) p)

  paste_range : Text → ℕ → ℕ → ℕ → ℕ → Pasted C V → Pasted C V
  unfolding paste_row_range
  paste_range t i j zero n p = p
  paste_range t i j (suc m) n p = paste_range t (suc i) j m n (paste_row_range t i j n p)

  -- `pasteValue`, with a selection from a to b. `same` is `===` on texts.
  unfoldable pub paste_value : (Text → Text → Bool) → Text → Index → Index → Fields C V → Pasted C V
  unfolding trim split paste_range paste_lines
  paste_value same value a b f =
      let t = trim value in
      let p : Pasted C V = record { cells = f.cells; dirty_cells = f.dirty_cells; failed = [] } in
      let (i, j) = first_cell a b in
      if not (has_char newline t || has_char tab t) && not f.one_object
      then paste_range t i j (row_count a b) (column_count a b) p
      else paste_lines same f.rows a.0 a.1 (fields_of t) p
