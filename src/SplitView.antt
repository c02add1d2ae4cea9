-- ===== src/SplitView.antt =====
-- views/vertical_split_view.js: two views beside each other with a divider between them.
pub mod Layout
pub mod Resizing
use flame_js.Prelude.{Bool, true, false, Option, none, some, List, [], ◌∷◌, if◌then◌else◌}
use flame_js.Prelude.Int.{ℤ, pos_part, neg_part, ltb_ℤ, ◌+ℤ◌, ◌-ℤ◌}
use mathlib.Core.Option

-- Which view takes the space that is left: the property `flex`.
pub data Flex : Type 0 where
  right left : Flex

-- A width is none where it is undefined; a NaN, which arithmetic on undefined gives, is not told from
-- that. `total_width` is what the element measures, none
-- where that is null or 0.
pub record SplitView : Type 0 where
  pub flex : Flex
  pub left_width : Option ℤ
  pub right_width : Option ℤ
  pub min_left_width : ℤ
  pub min_right_width : ℤ
  pub divider_thickness : ℤ
  pub total_width : Option ℤ
  pub allow_resizing : Bool
  pub un_collapsed_left_width : Option ℤ
  pub un_collapsed_right_width : Option ℤ
  pub resize_start_x : ℤ
  pub resize_start_left_width : Option ℤ
  pub resize_start_right_width : Option ℤ

abbrev pub Widths : Type 0
Widths = Option ℤ × Option ℤ

-- A width that is not given is what the other one leaves of the total.
abbrev pub fill_in : Option ℤ → Option ℤ → Option ℤ → ℤ → Option ℤ
fill_in (some w) other total divider = some w
fill_in none (some o) (some t) divider = some (t -ℤ o -ℤ divider)
fill_in none (some o) none divider = none
fill_in none none total divider = none

-- A width below its minimum takes what it lacks from the other one.
abbrev pub keep_min : ℤ → Option ℤ → Option ℤ → Widths
keep_min least none other = (none, other)
keep_min least (some w) other =
    if ltb_ℤ w least
    then (some least, Option.map (λ o. o +ℤ (w -ℤ least)) other)
    else (some w, other)

abbrev pub given_left : SplitView → Option ℤ
given_left s = elim s.flex [ right ↦ s.left_width | left ↦ none ]

abbrev pub given_right : SplitView → Option ℤ
given_right s = elim s.flex [ right ↦ none | left ↦ s.right_width ]

-- `_updateLayout`, which sets the two widths. The observer, which runs again as they are set, computes
-- the same widths from them.
unfoldable pub update_layout : SplitView → SplitView
update_layout s =
    let l = fill_in (given_left s) (given_right s) s.total_width s.divider_thickness in
    let r = fill_in (given_right s) l s.total_width s.divider_thickness in
    let (l', r') = keep_min s.min_left_width l r in
    let (right_width, left_width) = keep_min s.min_right_width r' l' in
    record s { left_width = left_width; right_width = right_width }

-- `init`: the width of the view that takes the space left is not given.
unfoldable pub init : SplitView → SplitView
init s = elim s.flex [
  | right ↦ record s { right_width = none }
  | left ↦ record s { left_width = none }
]

-- `set('leftWidth', ...)` and `set('rightWidth', ...)`, with the observer.
set_left : Option ℤ → SplitView → SplitView
unfolding update_layout
set_left w s = update_layout (record s { left_width = w })

set_right : Option ℤ → SplitView → SplitView
unfolding update_layout
set_right w s = update_layout (record s { right_width = w })

-- Whether a side has its least width.
is_collapsed : Option ℤ → ℤ → Bool
is_collapsed none least = false
is_collapsed (some w) least = if ltb_ℤ w least then false else if ltb_ℤ least w then false else true

collapse_left : Bool → Option ℤ → SplitView → SplitView
unfolding set_left
collapse_left true (some w) s = set_left (some w) s
collapse_left _ _ s =
    set_left (some s.min_left_width) (record s { un_collapsed_left_width = s.left_width })

collapse_right : Bool → Option ℤ → SplitView → SplitView
unfolding set_right
collapse_right true (some w) s = set_right (some w) s
collapse_right _ _ s =
    set_right (some s.min_right_width) (record s { un_collapsed_right_width = s.right_width })

-- `toggleCollapse`
unfoldable pub toggle_collapse : SplitView → SplitView
unfolding collapse_left collapse_right is_collapsed
toggle_collapse s =
    if s.allow_resizing
    then elim s.flex [
      | right ↦
          collapse_left (is_collapsed s.left_width s.min_left_width) s.un_collapsed_left_width s
      | left ↦
          collapse_right (is_collapsed s.right_width s.min_right_width) s.un_collapsed_right_width s
    ]
    else s

unfoldable pub start_resize : ℤ → SplitView → SplitView
start_resize x s = record s {
  resize_start_x = x;
  resize_start_left_width = s.left_width;
  resize_start_right_width = s.right_width;
}

-- `resize`, where the pointer is at x.
unfoldable pub resize : ℤ → SplitView → SplitView
unfolding set_left set_right
resize x s = elim s.flex [
  | right ↦ set_left (Option.map (λ w. w +ℤ (x -ℤ s.resize_start_x)) s.resize_start_left_width) s
  | left ↦ set_right (Option.map (λ w. w -ℤ (x -ℤ s.resize_start_x)) s.resize_start_right_width) s
]

unfoldable pub resize_all : List ℤ → SplitView → SplitView
resize_all [] s = s
resize_all (x ∷ xs) s = resize_all xs (resize x s)
