-- ===== src/LazyTree/Toggle.antt =====
-- views/lazy_tree_view.js: expanding and collapsing an item of the tree.
use flame_js.Prelude.{
  ℕ, zero, suc, ◌-◌, Bool, false, ◌||◌, none, some, List, [], ◌∷◌, if◌then◌else◌, ◌==◌,
}
use flame_js.LazyList.{
  View, LazyList, Geometry, Range, rows_to_render_range, in_range, unused, view_for_row, hide,
}
use flame_js.LazyTree.{Trees, Cache, load_cache}

-- A tree view: the outermost items, `_expandedItems`, the caches, and the list whose content is the rows.
pub record TreeView : Type 0 where
  pub trees : Trees
  pub expanded : ℕ → Bool
  pub cache : Cache
  pub list : LazyList

-- `_expandedItems.add(item)` and `_expandedItems.remove(item)`
abbrev pub set_expanded : ℕ → Bool → (ℕ → Bool) → ℕ → Bool
set_expanded x status e y = if x == y then status else e y

-- `numberOfRowsChanged`
unfoldable pub number_of_rows_changed : TreeView → TreeView
number_of_rows_changed t =
    let c = load_cache t.expanded t.trees in
    record t { cache = c; list = record t.list { content = c.rows } }

-- The views after the loop over them, with `indices`.
pub record Moved : Type 0 where
  pub moved : List View
  pub pool : List (ℕ × ℕ)
  pub indices : List ℕ

abbrev pub put_first : View → Moved → Moved
put_first v s = record s { moved = v ∷ s.moved }

abbrev pub note : ℕ → Moved → Moved
note row s = record s { indices = row ∷ s.indices }

abbrev pub at_row : ℕ → View → View
at_row row v = record v { content_index = some row }

-- `indices.indexOf(i) !== -1`
unfoldable pub has_row : ℕ → List ℕ → Bool
has_row i [] = false
has_row i (k ∷ ks) = k == i || has_row i ks

module _ (class_of : ℕ → ℕ) where
  -- The loop of `toggleItem` over the child views, from the place p on.
  unfoldable pub move_views : Cache → Range → ℕ → List View → List (ℕ × ℕ) → Moved
  move_views c r p [] pool = record { moved = []; pool = pool; indices = [] }
  move_views c r p (v ∷ vs) pool = elim v.content_index [
    | none ↦ put_first v (move_views c r (suc p) vs pool)
    | some i ↦ elim (c.row_of v.item) [
      | none ↦ put_first (unused v) (move_views c r (suc p) vs ((class_of v.item, p) ∷ pool))
      | some row ↦
          if in_range r row
          then note row (put_first (at_row row v) (move_views c r (suc p) vs pool))
          else note row
              (put_first (unused v) (move_views c r (suc p) vs ((class_of v.item, p) ∷ pool)))
    ]
  ]

  -- The loop for the missing views, over n rows from `row` up.
  unfoldable pub render_missing : List ℕ → ℕ → ℕ → LazyList → LazyList
  unfolding has_row view_for_row
  render_missing indices row zero l = l
  render_missing indices row (suc n) l =
      render_missing indices (suc row) n
        (if has_row row indices then l else view_for_row class_of row l)

  unfoldable pub update_rendering : Cache → Range → LazyList → LazyList
  unfolding move_views render_missing hide
  update_rendering c r l =
      let s = move_views c r 0 l.views l.pool in
      let filled =
        render_missing s.indices r.start (r.stop - r.start)
          (record l { views = s.moved; pool = s.pool }) in
      record filled { views = hide filled.pool filled.views }

  -- `toggleItem` of a view of the item x, whose `isExpanded` is the status, with what the list measured
  -- when it last scrolled.
  unfoldable pub toggle_item : Geometry → ℕ → ℕ → ℕ → Bool → TreeView → TreeView
  unfolding number_of_rows_changed rows_to_render_range update_rendering
  toggle_item g scroll_height scroll_top x status t =
      let t' = number_of_rows_changed (record t { expanded = set_expanded x status t.expanded }) in
      let r = rows_to_render_range g t'.cache.number_of_rows scroll_height scroll_top in
      record t' { list = update_rendering t'.cache r t'.list }
