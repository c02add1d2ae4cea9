-- ===== src/LazyTree/Loading.antt =====
-- views/lazy_tree_view.js: that loading a tree keeps its caches in agreement.
use flame_js.Prelude.{
  ℕ, ◌+◌, ◌≤◌, ◌≡◌, refl, Bool, Option, none, some, [], ◌∷◌, arith, if◌then◌else◌, ◌==◌, ==_iff,
  Bool-cases, inl, inr,
}
use flame_js.Prelude.Items.{count, count-append, NoRepeats}
use flame_js.LazyTree.{
  Tree, item, Trees, no_trees, with, Cache, empty_cache, add_row, load_item, load_items, load_cache,
}
use flame_js.LazyTree.Rows.{Agrees, OnLevel, add_row-Agrees, not_cached}

count-add_row :
    (y x level : ℕ) (parent : Option ℕ) (c : Cache)
    → count y (add_row x level parent c).rows ≡ count y c.rows + (if x == y then 1 else 0)
unfolding add_row
count-add_row y x level parent c = omega (arith, count-append y c.rows (x ∷ []))

mutual
  unfolding load_item

  count-load_item :
      (e : ℕ → Bool) (t : Tree) (level : ℕ) (parent : Option ℕ) (c : Cache) (y : ℕ)
      → count y c.rows ≤ count y (load_item e t level parent c).rows
  count-load_item e (item x ts) level parent c y = ground (
    arith,
    count-add_row y x level parent c,
    count-load_items e ts (level + 1) (some x) (add_row x level parent c) y,
  )

  count-load_items :
      (e : ℕ → Bool) (ts : Trees) (level : ℕ) (parent : Option ℕ) (c : Cache) (y : ℕ)
      → count y c.rows ≤ count y (load_items e ts level parent c).rows
  count-load_items e no_trees level parent c y = omega arith
  count-load_items e (with t ts) level parent c y = omega (
    arith,
    count-load_item e t level parent c y,
    count-load_items e ts level parent (load_item e t level parent c) y,
  )

-- The caches agree, and what they held before is still there.
pub record Loaded (c after : Cache) : Type 0 where
  pub agrees : Agrees after
  pub kept_row : (y row : ℕ) → c.row_of y ≡ some row → after.row_of y ≡ some row
  pub kept_level :
      (y row l : ℕ) → c.row_of y ≡ some row → c.level_of y ≡ some l → after.level_of y ≡ some l

Loaded-trans : (a b c : Cache) → Loaded a b → Loaded b c → Loaded a c
Loaded-trans a b c p q = record {
  agrees = q.agrees;
  kept_row = λ y row e. q.kept_row y row (p.kept_row y row e);
  kept_level = λ y row l e f. q.kept_level y row l (p.kept_row y row e) (p.kept_level y row l e f);
}

OnLevel-Loaded :
    (a b : Cache) (level : ℕ) (parent : Option ℕ)
    → Loaded a b
    → OnLevel a level parent
    → OnLevel b level parent
unfolding OnLevel
OnLevel-Loaded a b level none l on = on
OnLevel-Loaded a b level (some p) l on = record {
  row = on.row;
  parent_level = on.parent_level;
  row_of_p = l.kept_row p on.row on.row_of_p;
  level_of_p = l.kept_level p on.row on.parent_level on.row_of_p on.level_of_p;
  deeper = on.deeper;
}

add_row-Loaded :
    (x level : ℕ) (parent : Option ℕ) (c : Cache)
    → Agrees c
    → OnLevel c level parent
    → count x c.rows ≡ 0
    → Loaded c (add_row x level parent c)
unfolding add_row
add_row-Loaded x level parent c ok on new = record {
  agrees = add_row-Agrees x level c ok new parent on;
  kept_row = λ y row e. ground (arith, not_cached x level parent c ok new row, ==_iff x y);
  kept_level = λ y row l e f. ground (arith, not_cached x level parent c ok new row, ==_iff x y);
}

Inside-add_row :
    (x level : ℕ) (parent : Option ℕ) (c : Cache)
    → OnLevel (add_row x level parent c) (level + 1) (some x)
unfolding add_row OnLevel
Inside-add_row x level parent c = record {
  row = c.number_of_rows;
  parent_level = level;
  row_of_p = ground (arith, ==_iff x x);
  level_of_p = ground (arith, ==_iff x x);
  deeper = refl;
}

load_item_on :
    (e : ℕ → Bool) (x : ℕ) (ts : Trees) (level : ℕ) (parent : Option ℕ) (c : Cache)
    → (count x c.rows ≡ 0 → Loaded c (add_row x level parent c))
    → (Agrees (add_row x level parent c)
        → NoRepeats (load_items e ts (level + 1) (some x) (add_row x level parent c)).rows
        → Loaded
            (add_row x level parent c)
            (load_items e ts (level + 1) (some x) (add_row x level parent c)))
    → NoRepeats (load_item e (item x ts) level parent c).rows
    → Loaded c (load_item e (item x ts) level parent c)
unfolding load_item
load_item_on e x ts level parent c first more n = elim (Bool-cases (e x)) [
  | inl q ↦
      let n' : NoRepeats (load_items e ts (level + 1) (some x) (add_row x level parent c)).rows =
        λ a. ground (arith, n a) in
      let one = first (
        ground (
          arith,
          n' x,
          count-add_row x x level parent c,
          ==_iff x x,
          count-load_items e ts (level + 1) (some x) (add_row x level parent c) x,
        )) in
      rw q (Loaded-trans _ _ _ one (more one.agrees n'))
  | inr q ↦ rw q (first (ground (arith, n x, count-add_row x x level parent c, ==_iff x x)))
]

mutual
  unfolding load_item

  load_item-Loaded :
      (e : ℕ → Bool) (t : Tree) (level : ℕ) (parent : Option ℕ) (c : Cache)
      → Agrees c
      → OnLevel c level parent
      → NoRepeats (load_item e t level parent c).rows
      → Loaded c (load_item e t level parent c)
  load_item-Loaded e (item x ts) level parent c ok on n =
      load_item_on e x ts level parent c (add_row-Loaded x level parent c ok on)
        (λ ok' n'.
          load_items-Loaded e ts (level + 1) (some x) (add_row x level parent c) ok'
            (Inside-add_row x level parent c) n')
        n

  pub load_items-Loaded :
      (e : ℕ → Bool) (ts : Trees) (level : ℕ) (parent : Option ℕ) (c : Cache)
      → Agrees c
      → OnLevel c level parent
      → NoRepeats (load_items e ts level parent c).rows
      → Loaded c (load_items e ts level parent c)
  load_items-Loaded e no_trees level parent c ok on n = record {
    agrees = ok;
    kept_row = λ y row q. q;
    kept_level = λ y row l q f. f;
  }
  load_items-Loaded e (with t ts) level parent c ok on n =
      let one = load_item-Loaded e t level parent c ok on (λ a.
        omega (arith, n a, count-load_items e ts level parent (load_item e t level parent c) a)) in
      Loaded-trans _ _ _ one (
        load_items-Loaded e ts level parent (load_item e t level parent c) one.agrees
          (OnLevel-Loaded c _ level parent one on) n)

empty-Agrees : Agrees empty_cache
empty-Agrees = record {
  number = refl;
  there = λ row x e. absurd cc;
  back = λ x row e. absurd cc;
  rooted = λ x row e h. absurd cc;
  above = λ x p e. absurd cc;
}

-- Where no item is in two of the rows that the tree is flattened to: each row and its item lead to each
-- other, each item is one level below its parent, whose row is above, and an item without a parent is on
-- the outermost level.
pub load_cache-Agrees :
    (expanded : ℕ → Bool) (content : Trees)
    → NoRepeats (load_cache expanded content).rows
    → Agrees (load_cache expanded content)
unfolding load_cache OnLevel
load_cache-Agrees expanded content n =
    (load_items-Loaded expanded content 0 none empty_cache empty-Agrees refl n).agrees
