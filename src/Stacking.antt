-- ===== src/Stacking.antt =====
-- layout_managers/vertical_stack_layout_manager.js and layout_manager.js: child views placed one below
-- the other.
pub mod Apart
pub mod Heights
use flame_js.Prelude.{
  ℕ, ◌+◌, Bool, true, false, Option, none, some, List, [], ◌∷◌, ◌&&◌, not, ltb, if◌then◌else◌,
}

-- The layout of a view, of which the manager sets `top`, or `height` of the view itself.
pub record Layout : Type 0 where
  pub top : Option ℕ
  pub height : Option ℕ
  pub max_height : Option ℕ
  pub top_margin : Option ℕ
  pub top_padding : Option ℕ
  pub bottom_padding : Option ℕ

-- `isVisible` is none where it is null.
pub record Child : Type 0 where
  pub ignore_layout_manager : Bool
  pub is_visible : Option Bool
  pub layout : Option Layout

pub record Manager : Type 0 where
  pub top_margin : ℕ
  pub bottom_margin : ℕ
  pub spacing : ℕ

-- `|| 0`
abbrev pub or_zero : Option ℕ → ℕ
or_zero none = 0
or_zero (some n) = n

-- Whether a view is visible, or has not said so yet.
abbrev pub shows : Option Bool → Bool
shows none = true
shows (some b) = b

-- The layout of a child that `getAffectedChildViews` returns.
abbrev pub affected : Child → Option Layout
affected c = if not c.ignore_layout_manager && shows c.is_visible then c.layout else none

-- `adjustLayout('top', ...)` of a child with this layout.
abbrev pub adjust_top : ℕ → Layout → Child → Child
adjust_top at l c = record c { layout = some (record l { top = some at }) }

-- What the loop over the children leaves: `top`, `fluid`, and the children.
pub record Stack : Type 0 where
  pub top : ℕ
  pub fluid : Bool
  pub children : List Child

abbrev pub push : Child → Stack → Stack
push c s = record s { children = c ∷ s.children }

-- Where a child is put that comes after `top`; the first one has no spacing above it.
abbrev pub top_of : ℕ → Bool → ℕ → Layout → ℕ
top_of spacing first top l = (if first then top else top + spacing) + or_zero l.top_margin

-- The height of the paddings.
abbrev pub paddings : Layout → ℕ
paddings l = or_zero l.top_padding + or_zero l.bottom_padding

-- The loop of `setupLayout`, as it goes where its assertion does not throw.
unfoldable pub stack_up : ℕ → Bool → ℕ → Bool → List Child → Stack
stack_up spacing first top fluid [] = record { top = top; fluid = fluid; children = [] }
stack_up spacing first top fluid (c ∷ cs) = elim (affected c) [
  | none ↦ push c (stack_up spacing first top fluid cs)
  | some l ↦
      let at = top_of spacing first top l in
      elim l.height [
        | none ↦ push (adjust_top at l c) (stack_up spacing false (at + paddings l) true cs)
        | some h ↦ push (adjust_top at l c) (stack_up spacing false (at + paddings l + h) fluid cs)
      ]
]

-- A view with its children.
pub record Parent : Type 0 where
  pub layout : Layout
  pub children : List Child

abbrev pub at_most : Option ℕ → ℕ → ℕ
at_most none top = top
at_most (some m) top = if ltb m top then m else top

-- `adjustLayout('height', ...)` of the view, unless it is fluid and has no maximum.
abbrev pub adjust_height : Bool → ℕ → Layout → Layout
adjust_height true top l = elim l.max_height [
  | none ↦ l
  | some m ↦ record l { height = some (at_most (some m) top) }
]
adjust_height false top l = record l { height = some (at_most l.max_height top) }

-- Whether all children from here on are left out.
unfoldable pub none_left : List Child → Bool
none_left [] = true
none_left (c ∷ cs) = elim (affected c) [ none ↦ none_left cs | some l ↦ false ]

-- The assertion in the loop: all children except the last one define a height.
unfoldable pub heights_given : List Child → Bool
unfolding none_left
heights_given [] = true
heights_given (c ∷ cs) = elim (affected c) [
  | none ↦ heights_given cs
  | some l ↦ elim l.height [ none ↦ none_left cs | some h ↦ heights_given cs ]
]

-- `setupLayout`, none where the assertion throws.
unfoldable pub setup_layout : Manager → Parent → Option Parent
unfolding stack_up heights_given
setup_layout m v =
    let s = stack_up m.spacing true m.top_margin false v.children in
    let top = if s.fluid then s.top else s.top + m.bottom_margin in
    if heights_given v.children
    then some (record { layout = adjust_height s.fluid top v.layout; children = s.children })
    else none
