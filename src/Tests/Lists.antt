-- ===== src/Tests/Lists.antt =====
-- views/lazy_list_view.js and views/lazy_tree_view.js: a list of six rows.
use flame_js.Prelude.{
  ℕ, ◌≤◌, ==_iff, ◌≡◌, refl, sym, ◌||◌, Bool, true, false, none, some, List, [], ◌∷◌, arith, ◌==◌,
}
use mathlib.Core.Path.{subst}
use flame_js.Prelude.Items.{NoRepeats}
use flame_js.LazyTree.{
  item, Trees, no_trees, with, add_row, load_item, load_cache, with_root, get_ancestors,
}
use flame_js.LazyTree.Toggle.{TreeView, set_expanded, toggle_item}
use flame_js.LazyTree.Toggling.{holding, toggle_item_once}
use flame_js.LazyTree.Rows.{Agrees}
use flame_js.LazyTree.Loading.{load_cache-Agrees}
use flame_js.LazyTree.Ancestors.{Climb, get_ancestors-Climb}
use flame_js.LazyList.{
  View, LazyList, Geometry, Range, in_range, show, render_range, rows_to_render_range,
}
use flame_js.LazyList.Pool.{shown, PoolOk}
use flame_js.LazyList.Scroll.{render_range_once}
use flame_js.LazyList.Visible.{visible_rows}

abbrev geometry : Geometry
geometry = record { has_element = true; offset_from_parent = 0; item_height = 10; buffer = 1 }

visible_rows_example : in_range (rows_to_render_range geometry 6 20 15) 2 ≡ true
visible_rows_example =
    visible_rows geometry 6 20 15 2 refl (omega arith) (omega arith) (omega arith) (omega arith)
      (omega arith)

abbrev showing : List ℕ → List View
showing [] = []
showing (i ∷ is) = show i i false false ∷ showing is

abbrev lists : List ℕ → LazyList
lists rows = record {
  content = 0 ∷ 1 ∷ 2 ∷ 3 ∷ 4 ∷ 5 ∷ [];
  selection = none;
  views = showing rows;
  pool = [];
}

empty-PoolOk : (rows : List ℕ) → PoolOk (lists rows).views (lists rows).pool
empty-PoolOk rows = record { idle = λ p h. absurd (omega (arith, h)); once = λ p. omega arith }

abbrev range : Range
range = record { start = 1; stop = 5 }

class_of : ℕ → ℕ
class_of i = 0

render_range_once_example : shown 4 (render_range class_of range (lists (0 ∷ 1 ∷ 2 ∷ []))).views ≡ 1
unfolding shown
render_range_once_example =
    render_range_once class_of range (lists (0 ∷ 1 ∷ 2 ∷ [])) 4 1 2 (omega arith) (omega arith)
      (omega arith) (omega arith) (empty-PoolOk (0 ∷ 1 ∷ 2 ∷ [])) (λ k q. ground arith)
      (omega arith) (omega arith) refl

-- Item 1 with the children 2 and 3, of which 2 has the child 4; then item 5.
abbrev forest : Trees
forest =
    with
      (item 1 (with (item 2 (with (item 4 no_trees) no_trees)) (with (item 3 no_trees) no_trees)))
      (with (item 5 no_trees) no_trees)

abbrev expanded : ℕ → Bool
expanded x = x == 1 || x == 2

rows-forest : (load_cache expanded forest).rows ≡ 1 ∷ 2 ∷ 4 ∷ 3 ∷ 5 ∷ []
unfolding load_cache load_item add_row
rows-forest = refl

load_cache-Agrees_example : Agrees (load_cache expanded forest)
load_cache-Agrees_example =
    load_cache-Agrees expanded forest (subst NoRepeats (sym rows-forest) (λ a. ground arith))

forest-Agrees : Agrees (load_cache expanded forest)
forest-Agrees =
    load_cache-Agrees expanded forest (subst NoRepeats (sym rows-forest) (λ a. ground arith))

row_of_4 : (load_cache expanded forest).row_of 4 ≡ some 2
unfolding load_cache load_item add_row
row_of_4 = refl

get_ancestors-Climb_example :
    (ancestors : List ℕ) × (get_ancestors (load_cache expanded forest) 4
      ≡ some (with_root ancestors))
    × Climb (load_cache expanded forest) 4 ancestors
get_ancestors-Climb_example =
    get_ancestors-Climb (load_cache expanded forest) 4 2 forest-Agrees row_of_4

-- The forest with item 1 expanded, and views of its first rows.
abbrev tree : TreeView
tree = record {
  trees = forest;
  expanded = λ x. x == 1;
  cache = load_cache (λ x. x == 1) forest;
  list = record {
    content = (load_cache (λ x. x == 1) forest).rows;
    selection = none;
    views =
        show 0 1 false false
        ∷ show 1 2 false false
        ∷ show 2 3 false false
        ∷ show 3 5 false false
        ∷ [];
    pool = [];
  };
}

toggled : (load_cache (set_expanded 2 true tree.expanded) forest).rows ≡ 1 ∷ 2 ∷ 4 ∷ 3 ∷ 5 ∷ []
unfolding load_cache load_item add_row
toggled = refl

tree-PoolOk : PoolOk tree.list.views tree.list.pool
tree-PoolOk = record { idle = λ p h. absurd (omega (arith, h)); once = λ p. omega arith }

tree_holds : (y : ℕ) → holding y tree.list.views ≤ 1
unfolding holding
tree_holds y = ground (arith, ==_iff 1 y, ==_iff 2 y, ==_iff 3 y, ==_iff 5 y)

third_row :
    in_range
      (rows_to_render_range geometry
        (load_cache (set_expanded 2 true tree.expanded) forest).number_of_rows
        20
        15)
      2
    ≡ true
unfolding load_cache load_item add_row rows_to_render_range
third_row = refl

toggle_item_once_example : shown 2 (toggle_item class_of geometry 20 15 2 true tree).list.views ≡ 1
toggle_item_once_example =
    toggle_item_once class_of geometry 20 15 2 true tree 2
      (subst NoRepeats (sym toggled) (λ a. ground arith)) tree-PoolOk tree_holds third_row
