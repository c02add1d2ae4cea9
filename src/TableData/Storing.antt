-- ===== src/TableData/Storing.antt =====
-- views/table_data_view.js: what `_validateAndSet` leaves in the cells.
use flame_js.Prelude.{
  ◌≡◌, ap, false, Option, none, some, arith, if◌then◌else◌, ==_iff, Option-cases, inl, inr,
}
use flame_js.Table.Controller.{Grid, set_cell, cell_at}
use flame_js.Table.Headers.{Index}
use flame_js.Table.Push.{same_index, cell_at-set_cell, cell_at-set_cell_other}
use flame_js.TableData.{DirtyCells, DataCells, data_cell_at, validate_and_set}

pub data_cell_at-set_cell :
    {C : Type 0} (i : Index) (c c' : C) (g : Grid C)
    → data_cell_at g (some i) ≡ some c
    → data_cell_at (set_cell i c' g) (some i) ≡ some c'
unfolding data_cell_at
data_cell_at-set_cell (i, j) c c' g e = elim (Option-cases (cell_at g (i, j))) [
  | inl n ↦ absurd (ground arith)
  | inr (o, n) ↦ ground (arith, cell_at-set_cell (i, j) (i, j) c' g n, ==_iff i i, ==_iff j j)
]

data_cell_at-set_cell_other :
    {C : Type 0} (i k : Index) (c : C) (g : Grid C)
    → same_index i k ≡ false
    → data_cell_at (set_cell i c g) (some k) ≡ data_cell_at g (some k)
unfolding data_cell_at
data_cell_at-set_cell_other {C} i k c g ne =
    ap (λ (o : Option (Option C)). elim o as (λ _. Option C) [ none ↦ none | some x ↦ x ])
      (cell_at-set_cell_other i k c g ne)

-- The cell that a value leaves.
abbrev pub set_to : {C V : Type 0} → DataCells C V → V → Index → C → C
set_to env v i c =
    if env.same_value (env.editable_value c) v
    then c
    else if env.validate c v
    then (env.cell_updated c v i).0
    else c

module _ {C V : Type 0} (env : DataCells C V) where
  pub validate_and_set-other :
      (v : V) (i k : Index) (g : Grid C) (dirty : DirtyCells)
      → same_index i k ≡ false
      → data_cell_at (validate_and_set env v i g dirty).cells (some k) ≡ data_cell_at g (some k)
  unfolding validate_and_set
  validate_and_set-other v i k g dirty ne = elim (Option-cases (data_cell_at g (some i))) [
    | inl n ↦ ground (arith, n)
    | inr (c, e) ↦
        ground (arith, e, data_cell_at-set_cell_other i k (env.cell_updated c v i).0 g ne)
  ]

  pub validate_and_set_self :
      (v : V) (i : Index) (g : Grid C) (dirty : DirtyCells) (c : C)
      → data_cell_at g (some i) ≡ some c
      → data_cell_at (validate_and_set env v i g dirty).cells (some i) ≡ some (set_to env v i c)
  unfolding validate_and_set
  validate_and_set_self v i g dirty c e =
      ground (arith, e, data_cell_at-set_cell i c (env.cell_updated c v i).0 g e)
