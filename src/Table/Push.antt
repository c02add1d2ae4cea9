-- ===== src/Table/Push.antt =====
-- controllers/table_controller.js: what a pushed batch does to the grid and to the dirty cells.
use mathlib.Core.Path.{ap₂}
use mathlib.Core.List.{append-nil, append_assoc}
use flame_js.Prelude.{
  ℕ, zero, suc, ◌≡◌, refl, sym, ap, ◌∙◌, Bool, false, ◌&&◌, ◌||◌, Option, none, some, List, [], ◌∷◌,
  ◌++◌, if◌then◌else◌, ◌==◌, ==_iff, Option-cases, inl, inr, get_elem?, set, arith, ◌⊎◌,
}
use flame_js.Table.Headers.{Leaf, Index, Lookup, found, undefined, no_row, index_from_path}
use flame_js.Table.Controller.{
  CellData, ValuesOn, Cells, Grid, TableHeaders, row_leafs, column_leafs, cell_at, set_cell, merge,
  make_cell, store, push_cells,
}

abbrev pub same_index : Index → Index → Bool
same_index (i, j) (k, l) = i == k && j == l

get_elem?-set :
    {A : Type 0} (xs : List A) (i k : ℕ) (v : A) {a : A}
    → get_elem? xs i ≡ some a
    → get_elem? (set xs i v) k ≡ (if i == k then some v else get_elem? xs k)
get_elem?-set [] i k v h = absurd cc
get_elem?-set (x ∷ xs) zero zero v h = refl
get_elem?-set (x ∷ xs) zero (suc k) v h = ground arith
get_elem?-set (x ∷ xs) (suc i) zero v h = ground arith
get_elem?-set (x ∷ xs) (suc i) (suc k) v h =
    ground (arith, get_elem?-set xs i k v h, ==_iff i k, ==_iff (suc i) (suc k))

set-absent : {A : Type 0} (xs : List A) (i : ℕ) (v : A) → get_elem? xs i ≡ none → set xs i v ≡ xs
set-absent [] i v h = refl
set-absent (x ∷ xs) zero v h = absurd cc
set-absent (x ∷ xs) (suc i) v h = ap (λ ys. x ∷ ys) (set-absent xs i v h)

-- The cell that is set, where it is in the grid, and the others.
pub cell_at-set_cell :
    {C : Type 0} (index k : Index) (c : C) (g : Grid C) {old : Option C}
    → cell_at g index ≡ some old
    → cell_at (set_cell index c g) k ≡ (if same_index index k then some (some c) else cell_at g k)
unfolding cell_at set_cell
cell_at-set_cell (i, j) (k, l) c g h = elim (Option-cases (get_elem? g i)) [
  | inl e ↦ absurd (ground arith)
  | inr (r, e) ↦ elim (Option-cases (get_elem? r j)) [
    | inl q ↦ absurd (ground arith)
    | inr (o, q) ↦ ground (
      arith,
      get_elem?-set g i k (set r j (some c)) e,
      get_elem?-set r j l (some c) q,
      ==_iff i k,
    )
  ]
]

pub cell_at-set_cell_other :
    {C : Type 0} (index k : Index) (c : C) (g : Grid C)
    → same_index index k ≡ false
    → cell_at (set_cell index c g) k ≡ cell_at g k
unfolding cell_at set_cell
cell_at-set_cell_other (i, j) (k, l) c g h = elim (Option-cases (get_elem? g i)) [
  | inl e ↦ ground arith
  | inr (r, e) ↦ elim (Option-cases (get_elem? r j)) [
    | inl q ↦ ground (
      arith,
      get_elem?-set g i k (set r j (some c)) e,
      ==_iff i k,
      ==_iff j l,
      set-absent r j (some c),
    )
    | inr (o, q) ↦ ground (
      arith,
      get_elem?-set g i k (set r j (some c)) e,
      get_elem?-set r j l (some c) q,
      ==_iff i k,
    )
  ]
]

-- The index that a pushed cell goes to.
abbrev pub goes_to : {H V : Type 0} → TableHeaders H → CellData V → Lookup
goes_to h d = index_from_path (row_leafs h) (column_leafs h) d.row d.column

hits : Index → Lookup → Bool
hits k (found index) = same_index index k
hits k _ = false

-- Whether some cell of a batch goes to an index.
unfoldable pub any_hits : {H V : Type 0} → TableHeaders H → Index → List (CellData V) → Bool
unfolding hits
any_hits h k [] = false
any_hits h k (d ∷ ds) = hits k (goes_to h d) || any_hits h k ds

unfoldable pub indices : {H V : Type 0} → TableHeaders H → List (CellData V) → List Index
indices h [] = []
indices h (d ∷ ds) = elim (goes_to h d) [
  | found index ↦ index ∷ indices h ds
  | undefined ↦ indices h ds
  | no_row ↦ indices h ds
]

unfoldable pub AllFound : {H V : Type 0} → TableHeaders H → List (CellData V) → Type 0
AllFound h [] = Unit {0}
AllFound h (d ∷ ds) = ((index : Index) × (goes_to h d ≡ found index)) × AllFound h ds

Lookup-cases :
    (l : Lookup) → ((index : Index) × (l ≡ found index)) ⊎ ((l ≡ undefined) ⊎ (l ≡ no_row))
Lookup-cases (found index) = inl (index, refl)
Lookup-cases undefined = inr (inl refl)
Lookup-cases no_row = inr (inr refl)

module _ {H V C A : Type 0} (env : Cells H V C A) where
  -- A cell with the attributes that are pending on the placeholder there, if there is one.
  unfoldable pub settled : Option C → C → C
  settled none c = c
  settled (some placeholder) c = elim (env.pending placeholder) [
    | none ↦ c
    | some a ↦ env.apply_pending a c
  ]

  merge-settled : (old : Option C) (c : C) → merge env (some old) c ≡ settled old c
  unfolding merge settled
  merge-settled none c = refl
  merge-settled (some placeholder) c = refl

module _ {H V C A : Type 0} (env : Cells H V C A) (h : TableHeaders H) (on : ValuesOn) where
  store-other :
      (d : CellData V) (index k : Index) (r c : Option (Leaf H)) (g : Grid C)
      → same_index index k ≡ false
      → cell_at (store env on d index r c g) k ≡ cell_at g k
  unfolding store
  store-other d index k none c g e = refl
  store-other d index k (some r) none g e = refl
  store-other d index k (some r) (some c) g e = cell_at-set_cell_other index k _ g e

  push_cells-found :
      (d : CellData V) (ds : List (CellData V)) (g : Grid C) (dirty : List Index) (index : Index)
      → goes_to h d ≡ found index
      → push_cells env h on (d ∷ ds) g dirty
        ≡ push_cells env h on ds
            (store env on d index
              (get_elem? (row_leafs h) index.0)
              (get_elem? (column_leafs h) index.1)
              g)
            (dirty ++ index ∷ [])
  unfolding push_cells
  push_cells-found d ds g dirty index q =
      ap
        (λ l. elim l as (λ _. Grid C × Option (List Index)) [
          | found i ↦
              push_cells env h on ds
                (store env on d i (get_elem? (row_leafs h) i.0) (get_elem? (column_leafs h) i.1) g)
                (dirty ++ i ∷ [])
          | undefined ↦ (g, none)
          | no_row ↦ (g, none)
        ])
        q

  push_cells-fails :
      (d : CellData V) (ds : List (CellData V)) (g : Grid C) (dirty : List Index)
      → (goes_to h d ≡ undefined) ⊎ (goes_to h d ≡ no_row)
      → push_cells env h on (d ∷ ds) g dirty ≡ (g, none)
  unfolding push_cells
  push_cells-fails d ds g dirty q = elim q [ inl e ↦ ground arith | inr e ↦ ground arith ]

  -- A cell that no data of the batch goes to is left alone, whether or not the batch fails.
  pub push_cells_unchanged :
      (ds : List (CellData V)) (g : Grid C) (dirty : List Index) (k : Index)
      → any_hits h k ds ≡ false
      → cell_at (push_cells env h on ds g dirty).0 k ≡ cell_at g k
  unfolding any_hits push_cells
  push_cells_unchanged [] g dirty k e = refl
  push_cells_unchanged (d ∷ ds) g dirty k e = elim (Lookup-cases (goes_to h d)) [
    | inl (index, q) ↦
        ap (λ r. cell_at r.0 k) (push_cells-found d ds g dirty index q)
        ∙ push_cells_unchanged ds _ _ k (ground arith)
        ∙ store-other d index k _ _ g (ground arith)
    | inr q ↦ ap (λ r. cell_at r.0 k) (push_cells-fails d ds g dirty q)
  ]

  -- Where all paths of the batch are in the table, the push succeeds and the indices of its cells
  -- join the dirty ones in order.
  pub push_cells-dirty :
      (ds : List (CellData V)) (g : Grid C) (dirty : List Index)
      → AllFound h ds
      → (push_cells env h on ds g dirty).1 ≡ some (dirty ++ indices h ds)
  unfolding AllFound indices push_cells
  push_cells-dirty [] g dirty a = ap some (sym (append-nil dirty))
  push_cells-dirty (d ∷ ds) g dirty a =
      ap (λ x. x.1) (push_cells-found d ds g dirty a.0.0 a.0.1)
      ∙ push_cells-dirty ds _ (dirty ++ a.0.0 ∷ []) a.1
      ∙ ap some
          (append_assoc dirty (a.0.0 ∷ []) (indices h ds) ∙ ap (λ x. dirty ++ x) (ground arith))

  push_cells-append :
      (front back : List (CellData V)) (g : Grid C) (dirty : List Index)
      → AllFound h front
      → push_cells env h on (front ++ back) g dirty
        ≡ push_cells env h on back (push_cells env h on front g dirty).0 (dirty ++ indices h front)
  unfolding AllFound indices push_cells
  push_cells-append [] back g dirty a = ap (push_cells env h on back g) (sym (append-nil dirty))
  push_cells-append (d ∷ front) back g dirty a =
      push_cells-found d (front ++ back) g dirty a.0.0 a.0.1
      ∙ push_cells-append front back _ _ a.1
      ∙ ap₂ (push_cells env h on back)
          (ap (λ x. x.0) (sym (push_cells-found d front g dirty a.0.0 a.0.1)))
          (append_assoc dirty (a.0.0 ∷ []) (indices h front) ∙ ap (λ x. dirty ++ x) (ground arith))

  store-cell :
      (d : CellData V) (index : Index) (r c : Leaf H) (g : Grid C) {old : Option C}
      → cell_at g index ≡ some old
      → cell_at (store env on d index (some r) (some c) g) index
        ≡ some (some (settled env old (make_cell env on d r c)))
  unfolding store
  store-cell d (i, j) r c g {old} e =
      cell_at-set_cell (i, j) (i, j) _ g e
      ∙ ground (arith, ==_iff i i, ==_iff j j, merge-settled env old (make_cell env on d r c))

  -- A batch all of whose paths are in the table, and that has one datum for a cell of the grid: the cell
  -- is the one made from the datum, with the pending attributes of the placeholder that was there.
  pub push_cells-cell :
      (front back : List (CellData V)) (d : CellData V) (g : Grid C) (dirty : List Index)
      (index : Index) {r c : Leaf H} {old : Option C}
      → AllFound h front
      → any_hits h index front ≡ false
      → any_hits h index back ≡ false
      → goes_to h d ≡ found index
      → get_elem? (row_leafs h) index.0 ≡ some r
      → get_elem? (column_leafs h) index.1 ≡ some c
      → cell_at g index ≡ some old
      → cell_at (push_cells env h on (front ++ d ∷ back) g dirty).0 index
        ≡ some (some (settled env old (make_cell env on d r c)))
  push_cells-cell front back d g dirty index {r} {c} {old} a hf hb q er ec e =
      ap (λ x. cell_at x.0 index) (push_cells-append front (d ∷ back) g dirty a)
      ∙ ap (λ x. cell_at x.0 index) (push_cells-found d back g' _ index q)
      ∙ push_cells_unchanged back _ _ index hb
      ∙ ap
          (λ (x : Option (Leaf H) × Option (Leaf H)).
            cell_at (store env on d index x.0 x.1 g') index)
          (ap₂ (λ x y. (x, y)) er ec)
      ∙ store-cell d index r c g' (push_cells_unchanged front g dirty index hf ∙ e)
    where
      g' : Grid C
      g' = (push_cells env h on front g dirty).0
