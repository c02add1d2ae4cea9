-- ===== src/TableData/Clipboard/Texts.antt =====
-- views/table_data_view.js: that a copied text gives back the texts of the cells.
use mathlib.Core.Path.{ap₂}
use flame_js.Prelude.{
  ℕ, zero, suc, ◌+◌, ◌≤◌, ◌<◌, ◌≡◌, refl, sym, ap, ◌∙◌, ◌-◌, min, max, false, ◌||◌, List, [], ◌∷◌,
  ◌++◌, map, arith, ◌==◌, ==_iff,
}
use flame_js.Table.Controller.{Grid}
use flame_js.Table.Headers.{Index}
use flame_js.TableData.{Text, DataCells}
use flame_js.TableData.Clipboard.{
  tab, newline, carriage_return, join, split, normalize, strip, strip_front, trim, has_char,
  fields_of, copied, copied_row, copied_rows, joined, first_cell, row_count, column_count,
  value_for_copy,
}

has_char-append : (s : ℕ) (t u : Text) → has_char s (t ++ u) ≡ (has_char s t || has_char s u)
has_char-append s [] u = refl
has_char-append s (c ∷ t) u = ground (arith, has_char-append s t u)

split-clean : (s : ℕ) (t : Text) → has_char s t ≡ false → split s t ≡ t ∷ []
unfolding split
split-clean s [] h = refl
split-clean s (c ∷ t) h = ground (arith, split-clean s t)

split-append : (s : ℕ) (t u : Text) → has_char s t ≡ false → split s (t ++ s ∷ u) ≡ t ∷ split s u
unfolding split
split-append s [] u h = ground (arith, ==_iff s s)
split-append s (c ∷ t) u h = ground (arith, split-append s t u)

-- Texts with no character s in them.
abbrev pub Free : ℕ → List Text → Type 0
Free s [] = Unit
Free s (t ∷ ts) = (has_char s t ≡ false) × Free s ts

split-join :
    (s : ℕ) (t : Text) (ts : List Text) → Free s (t ∷ ts) → split s (join s (t ∷ ts)) ≡ t ∷ ts
unfolding join
split-join s t [] h = split-clean s t h.0
split-join s t (u ∷ ts) h =
    split-append s t (join s (u ∷ ts)) h.0 ∙ ap (◌∷◌ t) (split-join s u ts h.1)

has_char-join :
    (c s : ℕ) (ts : List Text) → (s == c) ≡ false → Free c ts → has_char c (join s ts) ≡ false
unfolding join
has_char-join c s [] ne h = refl
has_char-join c s (t ∷ []) ne h = h.0
has_char-join c s (t ∷ u ∷ ts) ne h =
    has_char-append c t (s ∷ join s (u ∷ ts))
    ∙ ground (arith, h.0, ne, has_char-join c s (u ∷ ts) ne h.1)

normalize-clean : (t : Text) → has_char carriage_return t ≡ false → normalize false t ≡ t
unfolding normalize
normalize-clean [] h = refl
normalize-clean (c ∷ t) h = ground (arith, normalize-clean t)

-- A text without the characters that separate fields and lines.
pub record PlainText (t : Text) : Type 0 where
  pub no_tab : has_char tab t ≡ false
  pub no_newline : has_char newline t ≡ false
  pub no_return : has_char carriage_return t ≡ false

-- The rows from i to k and the columns from j to l have plain texts.
abbrev pub PlainCells : {C V : Type 0} → DataCells C V → Grid C → ℕ → ℕ → ℕ → ℕ → Type 0
PlainCells env g i j k l =
    (x y : ℕ) → i ≤ x → x < k → j ≤ y → y < l → PlainText (copied env g (x, y))

module _ {C V : Type 0} (env : DataCells C V) (g : Grid C) (top left bottom right : ℕ) where
  abbrev FreeCells : ℕ → Type 0
  FreeCells c =
      (x y : ℕ)
      → top ≤ x
      → x < bottom
      → left ≤ y
      → y < right
      → has_char c (copied env g (x, y)) ≡ false

  row-Free :
      (c : ℕ)
      → FreeCells c
      → (i j n : ℕ) → top ≤ i
      → i < bottom
      → left ≤ j
      → j + n ≤ right
      → Free c (copied_row env g i j n)
  unfolding copied_row
  row-Free c free i j zero a b d e = tt
  row-Free c free i j (suc n) a b d e = (
    free i j a b d (omega (arith, e)),
    row-Free c free i (suc j) n a b (omega (arith, d)) (omega (arith, e)),
  )

  lines-Free :
      (c : ℕ)
      → (tab == c) ≡ false
      → FreeCells c
      → (i j m n : ℕ) → top ≤ i
      → i + m ≤ bottom
      → left ≤ j
      → j + n ≤ right
      → Free c (map (join tab) (copied_rows env g i j m n))
  unfolding copied_rows
  lines-Free c ne free i j zero n a b d e = tt
  lines-Free c ne free i j (suc m) n a b d e = (
    has_char-join c tab (copied_row env g i j n) ne
        (row-Free c free i j n a (omega (arith, b)) d e),
    lines-Free c ne free (suc i) j m n (omega (arith, a)) (omega (arith, b)) d e,
  )

  module _ (plain : PlainCells env g top left bottom right) where
    split-rows :
        (i j m n : ℕ)
        → top ≤ i
        → i + m ≤ bottom
        → left ≤ j
        → j + suc n ≤ right
        → map (split tab) (map (join tab) (copied_rows env g i j m (suc n)))
          ≡ copied_rows env g i j m (suc n)
    unfolding copied_rows copied_row
    split-rows i j zero n a b d e = refl
    split-rows i j (suc m) n a b d e =
        ap₂ ◌∷◌
          (split-join tab (copied env g (i, j)) (copied_row env g i (suc j) n) (
            row-Free tab (λ x y p q r s. (plain x y p q r s).no_tab) i j (suc n) a
              (omega (arith, b)) d e))
          (split-rows (suc i) j m n (omega (arith, a)) (omega (arith, b)) d e)

    fields_of-joined :
        (i j m n : ℕ)
        → top ≤ i
        → i + suc m ≤ bottom
        → left ≤ j
        → j + suc n ≤ right
        → fields_of (joined (copied_rows env g i j (suc m) (suc n)))
          ≡ copied_rows env g i j (suc m) (suc n)
    unfolding copied_rows
    fields_of-joined i j m n a b d e =
        ap (map (split tab)) (
          split-join newline (join tab (copied_row env g i j (suc n)))
            (map (join tab) (copied_rows env g (suc i) j m (suc n)))
            (lines-Free newline refl (λ x y p q r s. (plain x y p q r s).no_newline) i j (suc m)
              (suc n) a b d e))
        ∙ split-rows i j (suc m) n a b d e

module _ {C V : Type 0} (env : DataCells C V) (g : Grid C) (a b : Index) where
  -- The cells of the selection from a to b have plain texts.
  abbrev pub PlainSelection : Type 0
  PlainSelection =
      PlainCells env g (first_cell a b).0 (first_cell a b).1 ((first_cell a b).0 + row_count a b)
        ((first_cell a b).1 + column_count a b)

  -- Where no copied text has a tab, a newline or a carriage return, and the text for the clipboard
  -- neither begins nor ends with white space other than a tab: splitting it as `pasteValue` does gives
  -- the texts of the selected cells, row by row.
  pub fields_of-value_for_copy :
      PlainSelection
      → strip (value_for_copy env g a b) ≡ value_for_copy env g a b
      → fields_of (trim (value_for_copy env g a b))
        ≡ copied_rows env g (first_cell a b).0 (first_cell a b).1 (row_count a b) (column_count a b)
  unfolding value_for_copy trim
  fields_of-value_for_copy plain ends =
      let (i, j) = first_cell a b in
      let m = row_count a b in
      let n = column_count a b in
      let no_return =
        has_char-join carriage_return newline (map (join tab) (copied_rows env g i j m n)) refl (
          lines-Free env g i j (i + m) (j + n) carriage_return refl
            (λ x y p q r s. (plain x y p q r s).no_return) i j m n (omega arith) (omega arith)
            (omega arith) (omega arith)) in
      ap fields_of
        (ap strip (normalize-clean (joined (copied_rows env g i j m n)) no_return) ∙ ends)
      ∙ fields_of-joined env g i j (i + m) (j + n) plain i j (max a.0 b.0 - min a.0 b.0)
          (max a.1 b.1 - min a.1 b.1) (omega arith) (omega arith) (omega arith) (omega arith)

trim-newline : (t : Text) → trim (newline ∷ t) ≡ trim t
unfolding trim strip strip_front normalize
trim-newline t = refl

module _ {C V : Type 0} (env : DataCells C V) (g : Grid C) where
  value_for_copy-column :
      (i j n : ℕ)
      → value_for_copy env g (i, j) (i + n, j) ≡ joined (copied_rows env g i j (suc n) 1)
  unfolding value_for_copy
  value_for_copy-column i j n =
      let rows : ℕ → ℕ → ℕ → ℕ → Text = λ a b m w. joined (copied_rows env g a b (suc m) (suc w)) in
      ap₂ (λ a b. rows a b (max i (i + n) - min i (i + n)) (max j j - min j j)) (omega arith)
        (omega arith)
      ∙ ap₂ (rows i j) (omega arith) (omega arith)

  empty_first :
      (i j n : ℕ)
      → copied env g (i, j) ≡ []
      → joined (copied_rows env g i j (suc (suc n)) 1)
        ≡ newline ∷ joined (copied_rows env g (suc i) j (suc n) 1)
  unfolding copied_rows copied_row join
  empty_first i j n h = ap (λ t. t ++ newline ∷ joined (copied_rows env g (suc i) j (suc n) 1)) h

  -- Copying two or more cells of one column, of which the first has no text, and pasting them: the text
  -- that is pasted is that of the cells below the first alone, so that each goes one row too far up.
  pub trim-value_for_copy_empty :
      (i j n : ℕ)
      → copied env g (i, j) ≡ []
      → trim (value_for_copy env g (i, j) (i + suc n, j))
        ≡ trim (value_for_copy env g (suc i, j) (suc i + n, j))
  trim-value_for_copy_empty i j n h =
      ap trim (value_for_copy-column i j (suc n) ∙ empty_first i j n h)
      ∙ trim-newline _
      ∙ ap trim (sym (value_for_copy-column (suc i) j n))
