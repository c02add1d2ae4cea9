-- ===== src/LazyTree/Toggling.antt =====
-- views/lazy_tree_view.js: which rows are shown after an item is expanded or collapsed.
use mathlib.Core.Path.{subst}
use flame_js.Prelude.{
  length-get_elem?, ℕ, zero, suc, ◌+◌, ◌-◌, ◌≤◌, ◌<◌, ◌≡◌, refl, sym, ◌∙◌, Bool, true, false, none,
  some, List, [], ◌∷◌, arith, if◌then◌else◌, ◌==◌, ==_iff, ltb, length, get_elem?, ap, Option-cases,
  Bool-cases, inl, inr, if_keeps,
}
use flame_js.Prelude.Items.{count, NoRepeats}
use flame_js.LazyList.{
  View, LazyList, Geometry, Range, in_range, view_for_row, rows_to_render_range,
}
use flame_js.LazyList.Pool.{shown, PoolOk, view_for_row-Shows}
use flame_js.LazyList.Scroll.{between, shown-hide}
use flame_js.LazyTree.Moving.{move_views-PoolOk}
use flame_js.LazyTree.{Cache, load_cache}
use flame_js.LazyTree.Loading.{load_cache-Agrees}
use flame_js.LazyList.Visible.{range_bounds}
use flame_js.LazyTree.Rows.{Agrees}
use flame_js.LazyTree.Toggle.{
  TreeView, Moved, has_row, move_views, render_missing, update_rendering, toggle_item, set_expanded,
  number_of_rows_changed,
}

has_row-count : (i : ℕ) (ks : List ℕ) → has_row i ks ≡ ltb 0 (count i ks)
unfolding has_row
has_row-count i [] = refl
has_row-count i (k ∷ ks) = ground (arith, has_row-count i ks)

-- How many views that show a row hold the item x.
abbrev holds_item : ℕ → View → ℕ
holds_item x v = elim v.content_index as (λ _. ℕ) [
  | none ↦ 0
  | some i ↦ if v.item == x then 1 else 0
]

unfoldable pub holding : ℕ → List View → ℕ
holding x [] = 0
holding x (v ∷ vs) = holds_item x v + holding x vs

module _ (class_of : ℕ → ℕ) (c : Cache) (ok : Agrees c) (r : Range) (k x : ℕ)
    (at : get_elem? c.rows k ≡ some x) where
  -- The row of an item is k exactly if the item is x.
  row_is : (y row : ℕ) → c.row_of y ≡ some row → (row == k) ≡ (y == x)
  row_is y row e = elim (Bool-cases (y == x)) [
    | inl h ↦ ground (arith, ==_iff y x, ==_iff row k, ok.there k x at, e)
    | inr h ↦ ground (arith, ==_iff y x, ==_iff row k, ok.back y row e, at)
  ]

  not_here : (y : ℕ) → c.row_of y ≡ none → (y == x) ≡ false
  not_here y e = ground (arith, ==_iff y x, ok.there k x at, e)

  count-indices :
      (p : ℕ) (vs : List View) (pl : List (ℕ × ℕ))
      → count k (move_views class_of c r p vs pl).indices ≡ holding x vs
  unfolding move_views holding
  count-indices p [] pl = refl
  count-indices p (v ∷ vs) pl = elim (Option-cases v.content_index) [
    | inl e ↦ ground (arith, e, count-indices (suc p) vs pl)
    | inr (i, e) ↦ elim (Option-cases (c.row_of v.item)) [
      | inl q ↦
          ground
            (arith, e, q, not_here v.item q, count-indices (suc p) vs ((class_of v.item, p) ∷ pl))
      | inr (row, q) ↦ ground (
        arith,
        e,
        q,
        row_is v.item row q,
        count-indices (suc p) vs pl,
        count-indices (suc p) vs ((class_of v.item, p) ∷ pl),
      )
    ]
  ]

  shown-move_views :
      (p : ℕ) (vs : List View) (pl : List (ℕ × ℕ))
      → in_range r k ≡ true
      → shown k (move_views class_of c r p vs pl).moved ≡ holding x vs
  unfolding move_views holding shown
  shown-move_views p [] pl inside = refl
  shown-move_views p (v ∷ vs) pl inside = elim (Option-cases v.content_index) [
    | inl e ↦ ground (arith, e, shown-move_views (suc p) vs pl inside)
    | inr (i, e) ↦ elim (Option-cases (c.row_of v.item)) [
      | inl q ↦ ground (
        arith,
        e,
        q,
        not_here v.item q,
        shown-move_views (suc p) vs ((class_of v.item, p) ∷ pl) inside,
      )
      | inr (row, q) ↦ ground (
        arith,
        e,
        q,
        row_is v.item row q,
        ==_iff row k,
        shown-move_views (suc p) vs pl inside,
        shown-move_views (suc p) vs ((class_of v.item, p) ∷ pl) inside,
      )
    ]
  ]

-- The rows from `row` up for which there is no view get one.
record Fills (indices : List ℕ) (row stop : ℕ) (s after : LazyList) : Type 0 where
  more :
      (i : ℕ)
      → shown i after.views
        ≡ shown i s.views + (if has_row i indices then 0 else between row stop i)
  ok : PoolOk after.views after.pool
  same_content : after.content ≡ s.content

module _ (class_of : ℕ → ℕ) (indices : List ℕ) where
  -- The body of the loop.
  one_row :
      (row : ℕ) (s : LazyList)
      → row < length s.content
      → PoolOk s.views s.pool
      → Fills indices row
          (suc row)
          s
          (if has_row row indices then s else view_for_row class_of row s)
  one_row row s l ok =
      if_keeps (Fills indices row (suc row) s) (has_row row indices)
        (λ h. record { more = λ i. ground (arith, h, ==_iff row i); ok = ok; same_content = refl })
        (λ h.
          let one = view_for_row-Shows class_of row s l ok in
          record {
            more = λ i. ground (arith, h, one.more i, ==_iff row i);
            ok = one.ok;
            same_content = one.same_content;
          })

  render_missing-Fills :
      (row n : ℕ) (s : LazyList)
      → row + n ≤ length s.content
      → PoolOk s.views s.pool
      → Fills indices row (row + n) s (render_missing class_of indices row n s)
  unfolding render_missing
  render_missing-Fills row zero s l ok = record {
    more = λ i. ground arith;
    ok = ok;
    same_content = refl;
  }
  render_missing-Fills row (suc n) s l ok =
      let one = one_row row s (omega arith) ok in
      let rest =
        render_missing-Fills (suc row) n _
          (subst (λ c. suc row + n ≤ length c) (sym one.same_content) (omega arith)) one.ok in
      record {
        more = λ i. ground (arith, one.more i, rest.more i);
        ok = rest.ok;
        same_content = rest.same_content ∙ one.same_content;
      }

module _ (class_of : ℕ → ℕ) (c : Cache) (agrees : Agrees c) (r : Range) (l : LazyList) where
  -- A row in the range is shown once after the views are moved and the missing ones are rendered.
  update_rendering_once :
      (i : ℕ)
      → r.stop ≤ length c.rows
      → l.content ≡ c.rows
      → PoolOk l.views l.pool
      → ((y : ℕ) → holding y l.views ≤ 1)
      → in_range r i ≡ true
      → shown i (update_rendering class_of c r l).views ≡ 1
  unfolding update_rendering
  update_rendering_once i fits same ok single inside = elim (Option-cases (get_elem? c.rows i)) [
    | inl n ↦ absurd (ground (arith, length-get_elem? c.rows i n))
    | inr (x, at) ↦
        shown-hide i (filled r).pool (filled r).views
        ∙ ground (
          arith,
          fills.more i,
          shown-move_views class_of c agrees r i x at 0 l.views l.pool inside,
          count-indices class_of c agrees r i x at 0 l.views l.pool,
          has_row-count i s.indices,
          single x,
        )
  ]
    where
      s : Moved
      s = move_views class_of c r 0 l.views l.pool

      start : LazyList
      start = record l { views = s.moved; pool = s.pool }

      filled : Range → LazyList
      filled q = render_missing class_of s.indices q.start (q.stop - q.start) start

      fills : Fills s.indices r.start (r.start + (r.stop - r.start)) start (filled r)
      fills =
          render_missing-Fills class_of s.indices r.start (r.stop - r.start) start
            (ground (arith, ap length same)) (move_views-PoolOk class_of c r l.views l.pool ok)

-- After an item is expanded or collapsed, each row in the range is shown once, where no item is in two
-- rows then, recycled views are there once each and show no row, and no two views that show a row hold
-- the same item.
pub toggle_item_once :
    (class_of : ℕ → ℕ) (g : Geometry) (height scroll_top x : ℕ) (status : Bool) (t : TreeView)
    (i : ℕ)
    → let c = load_cache (set_expanded x status t.expanded) t.trees in
      NoRepeats c.rows
      → PoolOk t.list.views t.list.pool
      → ((y : ℕ) → holding y t.list.views ≤ 1)
      → in_range (rows_to_render_range g c.number_of_rows height scroll_top) i ≡ true
      → shown i (toggle_item class_of g height scroll_top x status t).list.views ≡ 1
unfolding toggle_item number_of_rows_changed
toggle_item_once class_of g height scroll_top x status t i n ok single inside =
    let c = load_cache (set_expanded x status t.expanded) t.trees in
    let agrees = load_cache-Agrees (set_expanded x status t.expanded) t.trees n in
    let r = rows_to_render_range g c.number_of_rows height scroll_top in
    update_rendering_once class_of c agrees r (record t.list { content = c.rows }) i
      (omega (arith, agrees.number, (range_bounds g c.number_of_rows height scroll_top).1)) refl ok
      single inside
