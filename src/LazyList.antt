-- ===== src/LazyList.antt =====
-- views/lazy_list_view.js: a list that renders the rows in view and recycles the views of the others.
pub mod Visible
pub mod Pool
pub mod Scan
pub mod Recycling
pub mod Rerender
pub mod Scroll
pub mod Fresh
pub mod Selecting
use flame_js.Prelude.{
  ℕ, zero, suc, ◌+◌, ◌-◌, ◌*◌, ◌/◌, min, max, Bool, true, false, not, ◌&&◌, ◌||◌, Option, none,
  some, List, [], ◌∷◌, ◌++◌, if◌then◌else◌, ◌==◌, ltb, leb, length, get_elem?, set,
}

-- An item view. `item` is its `content`, and items are numbered.
pub record View : Type 0 where
  pub content_index : Option ℕ
  pub item : ℕ
  pub is_selected : Bool
  pub is_visible : Bool
  pub is_dragged : Bool

-- Views are known by their place among the child views. `pool` is `_recycledViews`, newest first: the
-- class of the item that a view showed, and the view.
pub record LazyList : Type 0 where
  pub content : List ℕ
  pub selection : Option ℕ
  pub views : List View
  pub pool : List (ℕ × ℕ)

-- What the list measures in the DOM, in pixels, and its settings. `buffer` is half of `bufferSize`.
pub record Geometry : Type 0 where
  pub has_element : Bool
  pub offset_from_parent : ℕ
  pub item_height : ℕ
  pub buffer : ℕ

-- The rows from `start` up to and without `stop`, which is `end + 1` in the source.
pub record Range : Type 0 where
  pub start : ℕ
  pub stop : ℕ

abbrev pub normalized_scroll_top : Geometry → ℕ → ℕ
normalized_scroll_top g scroll_top = scroll_top - g.offset_from_parent

abbrev pub desired_rows : Geometry → ℕ → ℕ
desired_rows g scroll_height = scroll_height / g.item_height + 2 * g.buffer

-- `_rowsToRenderRange`, whose `start + desiredRows` is not negative though its first `start` may be.
unfoldable pub rows_to_render_range : Geometry → ℕ → ℕ → ℕ → Range
rows_to_render_range g rows scroll_height scroll_top =
    let top_row = normalized_scroll_top g scroll_top / g.item_height in
    let stop = min rows (top_row + desired_rows g scroll_height - g.buffer + 1) in
    if g.has_element
    then record { start = stop - (desired_rows g scroll_height + 1); stop = stop }
    else record { start = 0; stop = 0 }

abbrev pub in_range : Range → ℕ → Bool
in_range r i = leb r.start i && ltb i r.stop

-- `_recycleView`, on the view's own properties.
abbrev pub unused : View → View
unused v = record v { content_index = none; is_selected = false }

pub record Scanned : Type 0 where
  pub scanned : List View
  pub pool : List (ℕ × ℕ)
  -- `min + 1` and `max` of the source
  pub past_min : ℕ
  pub max_row : ℕ

abbrev pub keep : View → Scanned → Scanned
keep v s = record s { scanned = v ∷ s.scanned }

-- `_recycledViews[itemClass].pop()`
unfoldable pub pop_class : ℕ → List (ℕ × ℕ) → Option (ℕ × List (ℕ × ℕ))
pop_class c [] = none
pop_class c ((d, p) ∷ rest) =
    let after = pop_class c rest in
    if c == d
    then some (p, rest)
    else elim after [ none ↦ none | some (q, others) ↦ some (q, (d, p) ∷ others) ]

is_selection : Option ℕ → ℕ → Bool
is_selection none item = false
is_selection (some s) item = s == item

abbrev pub show : ℕ → ℕ → Bool → Bool → View
show row item selected dragged = record {
  content_index = some row;
  item = item;
  is_selected = selected;
  is_visible = true;
  is_dragged = dragged;
}

dragged_at : List View → ℕ → Bool
dragged_at vs p = elim (get_elem? vs p) [ none ↦ false | some v ↦ v.is_dragged ]

unfoldable pub show_item : ℕ → ℕ → LazyList → Option (ℕ × List (ℕ × ℕ)) → LazyList
unfolding is_selection dragged_at
show_item row item s none = record s {
  views = s.views ++ show row item (is_selection s.selection item) false ∷ [];
}
show_item row item s (some (p, rest)) = record s {
  views = set s.views p (show row item (is_selection s.selection item) (dragged_at s.views p));
  pool = rest;
}

-- `_hideRecycledViews`
unfoldable pub hide : List (ℕ × ℕ) → List View → List View
hide [] vs = vs
hide ((c, p) ∷ rest) vs =
    hide rest
      (elim (get_elem? vs p) [ none ↦ vs | some v ↦ set vs p (record v { is_visible = false }) ])

module _ (class_of : ℕ → ℕ) where
  -- The loop of `didScroll` over the child views, from the place p on.
  unfoldable pub scan : Range → ℕ → List View → List (ℕ × ℕ) → ℕ → ℕ → Scanned
  scan r p [] pool mn mx = record { scanned = []; pool = pool; past_min = mn; max_row = mx }
  scan r p (v ∷ vs) pool mn mx = elim v.content_index [
    | none ↦ keep v (scan r (suc p) vs pool mn mx)
    | some i ↦
        if in_range r i
        then keep v (scan r (suc p) vs pool (min mn (suc i)) (max mx i))
        else if v.is_dragged
        then keep v (scan r (suc p) vs pool mn mx)
        else keep (unused v) (scan r (suc p) vs ((class_of v.item, p) ∷ pool) mn mx)
  ]

  -- `viewForRow`. The rows that are asked for are those of a range, so that there is an item.
  unfoldable pub view_for_row : ℕ → LazyList → LazyList
  unfolding pop_class show_item
  view_for_row row s = elim (get_elem? s.content row) [
    | none ↦ s
    | some item ↦ show_item row item s (pop_class (class_of item) s.pool)
  ]

  -- `n` rows from `row` up, and down to it.
  unfoldable pub fill_up : ℕ → ℕ → LazyList → LazyList
  fill_up row zero s = s
  fill_up row (suc n) s = fill_up (suc row) n (view_for_row row s)

  unfoldable pub fill_down : ℕ → ℕ → LazyList → LazyList
  fill_down row zero s = s
  fill_down row (suc n) s = fill_down row n (view_for_row (row + n) s)

  -- `if (min === range.end) min++`, and the loops that fill the gaps on top and on the bottom.
  unfoldable pub fill_gaps : Range → Scanned → LazyList → LazyList
  fill_gaps r s l =
      let limit = if s.past_min == r.stop then s.past_min else s.past_min - 1 in
      let topped = fill_up r.start (limit - r.start) l in
      if s.max_row == r.start
      then topped
      else fill_down (s.max_row + 1) (r.stop - (s.max_row + 1)) topped

  unfoldable pub render_range : Range → LazyList → LazyList
  unfolding fill_gaps hide
  render_range r l =
      let s = scan r 0 l.views l.pool r.stop r.start in
      let filled = fill_gaps r s (record l { views = s.scanned; pool = s.pool }) in
      record filled { views = hide filled.pool filled.views }

  -- `didScroll`
  unfoldable pub did_scroll : Geometry → ℕ → ℕ → LazyList → LazyList
  unfolding render_range rows_to_render_range
  did_scroll g scroll_height scroll_top l =
      render_range (rows_to_render_range g (length l.content) scroll_height scroll_top) l

  -- The loop of `fullRerender` over the child views, from the place p on: all that show a row are recycled.
  unfoldable pub recycle_all : ℕ → List View → List (ℕ × ℕ) → List View × List (ℕ × ℕ)
  recycle_all p [] pool = ([], pool)
  recycle_all p (v ∷ vs) pool = elim v.content_index [
    | none ↦ (let (rest, pool') = recycle_all (suc p) vs pool in (v ∷ rest, pool'))
    | some i ↦
        (let (rest, pool') = recycle_all (suc p) vs ((class_of v.item, p) ∷ pool) in
          (unused v ∷ rest, pool'))
  ]

  -- `fullRerender`, with what the list measured when it last scrolled.
  unfoldable pub full_rerender : Geometry → ℕ → ℕ → LazyList → LazyList
  unfolding recycle_all did_scroll
  full_rerender g scroll_height scroll_top l =
      let (vs, pool') = recycle_all 0 l.views l.pool in
      did_scroll g scroll_height scroll_top (record l { views = vs; pool = pool' })

-- `selectIndex`: where no selection is allowed, nothing happens.
unfoldable pub select_index : Bool → ℕ → LazyList → LazyList × Bool
select_index allowed i l =
    if allowed then (record l { selection = get_elem? l.content i }, true) else (l, false)

-- `rowForItem`, where `null` counts as 0 in the sum that follows.
unfoldable pub row_for_item : ℕ → List ℕ → Option ℕ
row_for_item x [] = none
row_for_item x (y ∷ ys) =
    let rest = row_for_item x ys in
    if y == x then some 0 else elim rest [ none ↦ none | some i ↦ some (suc i) ]

unfoldable pub selected_row : LazyList → ℕ
unfolding row_for_item
selected_row l = elim l.selection [
  | none ↦ 0
  | some x ↦ elim (row_for_item x l.content) [ none ↦ 0 | some i ↦ i ]
]

-- The loop of `changeSelection`, down the list with the rows that are left as fuel, and up.
unfoldable pub select_down : Bool → ℕ → ℕ → LazyList → LazyList × Bool
unfolding select_index
select_down allowed i zero l = (l, false)
select_down allowed i (suc n) l =
    let rest = select_down allowed (suc i) n l in
    let tried = select_index allowed i l in if tried.1 then tried else rest

unfoldable pub select_up : Bool → ℕ → LazyList → LazyList × Bool
unfolding select_index
select_up allowed zero l = (l, false)
select_up allowed (suc i) l =
    let rest = select_up allowed i l in
    let tried = select_index allowed i l in if tried.1 then tried else rest

-- `changeSelection(1)` and `changeSelection(-1)`
unfoldable pub next_selection : Bool → LazyList → LazyList × Bool
unfolding select_down selected_row
next_selection allowed l =
    select_down allowed (selected_row l + 1) (length l.content - (selected_row l + 1)) l

unfoldable pub previous_selection : Bool → LazyList → LazyList × Bool
unfolding select_up selected_row
previous_selection allowed l = select_up allowed (selected_row l) l
