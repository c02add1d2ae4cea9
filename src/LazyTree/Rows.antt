-- ===== src/LazyTree/Rows.antt =====
-- views/lazy_tree_view.js: that the caches of the rows agree.
use mathlib.Core.Path.{subst₂}
use flame_js.Prelude.{
  ℕ, zero, suc, ◌+◌, ◌<◌, ◌≡◌, ◌≢◌, refl, ap, ◌∙◌, Option, none, some, List, [], ◌∷◌, ◌++◌, arith,
  if◌then◌else◌, ◌==◌, ==_iff, length, length-append, get_elem?, Option-cases, Bool-cases, inl, inr,
}
use flame_js.Prelude.Items.{count}
use flame_js.LazyTree.{Cache, add_row}

get_elem?-snoc :
    (xs : List ℕ) (x i : ℕ)
    → get_elem? (xs ++ x ∷ []) i ≡ (if i == length xs then some x else get_elem? xs i)
get_elem?-snoc [] x zero = refl
get_elem?-snoc [] x (suc i) = ground arith
get_elem?-snoc (y ∷ xs) x zero = ground arith
get_elem?-snoc (y ∷ xs) x (suc i) =
    ground (arith, get_elem?-snoc xs x i, ==_iff i (length xs), ==_iff (suc i) (suc (length xs)))

get_elem?-count : (xs : List ℕ) (i : ℕ) {x : ℕ} → get_elem? xs i ≡ some x → 0 < count x xs
get_elem?-count [] i e = absurd cc
get_elem?-count (y ∷ xs) zero {x} e = ground (arith, ==_iff y x)
get_elem?-count (y ∷ xs) (suc i) {x} e = omega (arith, get_elem?-count xs i {x = x} e)

pub get_elem?-length : (xs : List ℕ) (i : ℕ) {x : ℕ} → get_elem? xs i ≡ some x → i < length xs
get_elem?-length [] i e = absurd cc
get_elem?-length (y ∷ xs) zero e = omega arith
get_elem?-length (y ∷ xs) (suc i) {x} e = omega (arith, get_elem?-length xs i {x = x} e)

-- An item that is a level below its parent, whose row is above.
pub record Under (c : Cache) (x p : ℕ) : Type 0 where
  pub row : ℕ
  pub parent_row : ℕ
  pub level : ℕ
  pub row_of_x : c.row_of x ≡ some row
  pub row_of_p : c.row_of p ≡ some parent_row
  pub below : parent_row < row
  pub level_of_p : c.level_of p ≡ some level
  pub level_of_x : c.level_of x ≡ some (level + 1)

-- Where no item is in two rows: a row and its item lead to each other, each item is a level below its
-- parent, whose row is above, and an item without a parent is on the outermost level.
pub record Agrees (c : Cache) : Type 0 where
  pub number : c.number_of_rows ≡ length c.rows
  pub there : (row x : ℕ) → get_elem? c.rows row ≡ some x → c.row_of x ≡ some row
  pub back : (x row : ℕ) → c.row_of x ≡ some row → get_elem? c.rows row ≡ some x
  pub rooted : (x row : ℕ) → c.row_of x ≡ some row → c.parent_of x ≡ none → c.level_of x ≡ some 0
  pub above : (x p : ℕ) → c.parent_of x ≡ some p → Under c x p

-- The level that children of an item are loaded on.
pub record Inside (c : Cache) (level p : ℕ) : Type 0 where
  pub row : ℕ
  pub parent_level : ℕ
  pub row_of_p : c.row_of p ≡ some row
  pub level_of_p : c.level_of p ≡ some parent_level
  pub deeper : level ≡ parent_level + 1

unfoldable pub OnLevel : Cache → ℕ → Option ℕ → Type 0
OnLevel c level none = level ≡ 0
OnLevel c level (some p) = Inside c level p

module _ (x level : ℕ) (parent : Option ℕ) (c : Cache) (ok : Agrees c)
    (new : count x c.rows ≡ 0) where
  pub not_cached : (row : ℕ) → c.row_of x ≢ some row
  not_cached row e =
      absurd (omega (arith, new, get_elem?-count c.rows row {x = x} (ok.back x row e)))

  row_bound : (y row : ℕ) → c.row_of y ≡ some row → row < length c.rows
  row_bound y row e = get_elem?-length c.rows row (ok.back y row e)

  other : (y row : ℕ) → c.row_of y ≡ some row → x ≢ y
  other y row e q = not_cached row (ap c.row_of q ∙ e)

  Under-add_row : (y p : ℕ) → Under c y p → Under (add_row x level parent c) y p
  unfolding add_row
  Under-add_row y p u = record {
    row = u.row;
    parent_row = u.parent_row;
    level = u.level;
    row_of_x = ground (arith, u.row_of_x, other y u.row u.row_of_x, ==_iff x y);
    row_of_p = ground (arith, u.row_of_p, other p u.parent_row u.row_of_p, ==_iff x p);
    below = u.below;
    level_of_p = ground (arith, u.level_of_p, other p u.parent_row u.row_of_p, ==_iff x p);
    level_of_x = ground (arith, u.level_of_x, other y u.row u.row_of_x, ==_iff x y);
  }

  new_root : c.parent_of x ≡ none
  new_root = elim (Option-cases (c.parent_of x)) [
    | inl e ↦ e
    | inr (p, e) ↦ absurd (not_cached (ok.above x p e).row (ok.above x p e).row_of_x)
  ]

module _ (x level : ℕ) (c : Cache) (ok : Agrees c) (new : count x c.rows ≡ 0) where
  Under-new : (q : ℕ) → Inside c level q → Under (add_row x level (some q) c) x q
  unfolding add_row
  Under-new q i = record {
    row = c.number_of_rows;
    parent_row = i.row;
    level = i.parent_level;
    row_of_x = ground (arith, ==_iff x x);
    row_of_p =
        ground (arith, i.row_of_p, other x level (some q) c ok new q i.row i.row_of_p, ==_iff x q);
    below = omega (arith, ok.number, row_bound x level (some q) c ok new q i.row i.row_of_p);
    level_of_p =
        ground
          (arith, i.level_of_p, other x level (some q) c ok new q i.row i.row_of_p, ==_iff x q);
    level_of_x = ground (arith, ==_iff x x, i.deeper);
  }

  above-add_row :
      (parent : Option ℕ)
      → OnLevel c level parent
      → (y p : ℕ) → (add_row x level parent c).parent_of y ≡ some p
      → Under (add_row x level parent c) y p
  unfolding OnLevel add_row
  above-add_row none on y p h = Under-add_row x level none c ok new y p (ok.above y p h)
  above-add_row (some q) on y p h = elim (Bool-cases (x == y)) [
    | inl e ↦
        subst₂ (Under (add_row x level (some q) c)) (ground (arith, ==_iff x y)) (ground arith)
          (Under-new q on)
    | inr e ↦ Under-add_row x level (some q) c ok new y p (ok.above y p (ground arith))
  ]

  rooted-add_row :
      (parent : Option ℕ)
      → OnLevel c level parent
      → (y row : ℕ) → (add_row x level parent c).row_of y ≡ some row
      → (add_row x level parent c).parent_of y ≡ none
      → (add_row x level parent c).level_of y ≡ some 0
  unfolding OnLevel add_row
  rooted-add_row none on y row e h = ground (arith, ok.rooted y row)
  rooted-add_row (some q) on y row e h = ground (arith, ok.rooted y row)

  -- A row with an item that is not in the cache keeps the caches in agreement.
  pub add_row-Agrees :
      (parent : Option ℕ) → OnLevel c level parent → Agrees (add_row x level parent c)
  unfolding add_row
  add_row-Agrees parent on = record {
    number = omega (arith, ok.number, length-append c.rows (x ∷ []));
    there = λ row y e. ground (
      arith,
      get_elem?-snoc c.rows x row,
      ok.number,
      ok.there row y,
      not_cached x level parent c ok new row,
      ==_iff x y,
    );
    back = λ y row e. ground (
      arith,
      get_elem?-snoc c.rows x row,
      ok.number,
      ok.back y row,
      row_bound x level parent c ok new y row,
      ==_iff x y,
    );
    rooted = rooted-add_row parent on;
    above = above-add_row parent on;
  }
