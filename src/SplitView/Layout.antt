-- ===== src/SplitView/Layout.antt =====
-- views/vertical_split_view.js: the widths after the layout is updated.
use mathlib.Core.Path.{subst}
use flame_js.Prelude.{◌≡◌, refl, sym, ◌∙◌, Bool, true, false, Option, some, arith}
use flame_js.Prelude.Int.{ℤ, ltb_ℤ, ◌+ℤ◌, ◌-ℤ◌, ◌≤ℤ◌, int_laws}
use flame_js.SplitView.{Flex, right, left, SplitView, update_layout}

-- The widths fill the view, with the divider, and none is below its minimum.
pub record Fits (s : SplitView) (total : ℤ) : Type 0 where
  pub left : ℤ
  pub right : ℤ
  pub left_is : s.left_width ≡ some left
  pub right_is : s.right_width ≡ some right
  pub fills : left +ℤ s.divider_thickness +ℤ right ≡ total
  pub left_least : s.min_left_width ≤ℤ left
  pub right_least : s.min_right_width ≤ℤ right

-- There is room for both minimums and the divider.
abbrev pub HasRoom : SplitView → ℤ → Type 0
HasRoom s total = s.min_left_width +ℤ s.divider_thickness +ℤ s.min_right_width ≤ℤ total

-- Two sides of which the first is kept at its minimum, then the second.
abbrev pub shift : Bool → ℤ → ℤ → ℤ → ℤ × ℤ
shift true w o least = (least, o +ℤ (w -ℤ least))
shift false w o least = (w, o)

abbrev pub clamped : ℤ → ℤ → ℤ → ℤ → ℤ × ℤ
clamped l r least_left least_right =
    let (l', r') = shift (ltb_ℤ l least_left) l r least_left in
    let (r'', l'') = shift (ltb_ℤ r' least_right) r' l' least_right in (l'', r'')

le_of_not_ltb : (a b : ℤ) → ltb_ℤ a b ≡ false → b ≤ℤ a
le_of_not_ltb a b h = ground arith

-- The sides fill the same width after a shift, and the first one has its minimum.
shift_total :
    (t : Bool) (w o least d total : ℤ)
    → ltb_ℤ w least ≡ t
    → w +ℤ d +ℤ o ≡ total
    → ((shift t w o least).0 +ℤ d +ℤ (shift t w o least).1 ≡ total)
      × (least ≤ℤ (shift t w o least).0)
shift_total true w o least d total h e =
    let same : least +ℤ d +ℤ (o +ℤ (w -ℤ least)) ≡ w +ℤ d +ℤ o = omega int_laws in
    (same ∙ e, omega int_laws)
shift_total false w o least d total h e = (e, le_of_not_ltb w least h)

swap_sides : (a d b total : ℤ) → a +ℤ d +ℤ b ≡ total → b +ℤ d +ℤ a ≡ total
swap_sides a d b total e = let same : b +ℤ d +ℤ a ≡ a +ℤ d +ℤ b = omega int_laws in same ∙ e

-- With room for both minimums the second shift leaves the first side its minimum.
second_least :
    (t : Bool) (l r least_left least d : ℤ)
    → least_left ≤ℤ l
    → least_left +ℤ d +ℤ least ≤ℤ l +ℤ d +ℤ r
    → least_left ≤ℤ (shift t r l least).1
second_least true l r least_left least d h room = omega (int_laws, h, room)
second_least false l r least_left least d h room = h

record Sides (a b d total least_left least_right : ℤ) : Type 0 where
  fills : a +ℤ d +ℤ b ≡ total
  left_least : least_left ≤ℤ a
  right_least : least_right ≤ℤ b

clamped-Sides :
    (l r d total least_left least_right : ℤ)
    → l +ℤ d +ℤ r ≡ total
    → least_left +ℤ d +ℤ least_right ≤ℤ total
    → let (a, b) = clamped l r least_left least_right in Sides a b d total least_left least_right
clamped-Sides l r d total least_left least_right e room =
    let one = shift_total (ltb_ℤ l least_left) l r least_left d total refl e in
    let l' = (shift (ltb_ℤ l least_left) l r least_left).0 in
    let r' = (shift (ltb_ℤ l least_left) l r least_left).1 in
    let two =
      shift_total (ltb_ℤ r' least_right) r' l' least_right d total refl
        (swap_sides l' d r' total one.0) in
    record {
      fills = swap_sides _ d _ total two.0;
      left_least =
          second_least (ltb_ℤ r' least_right) l' r' least_left least_right d one.1
            (subst (λ x. least_left +ℤ d +ℤ least_right ≤ℤ x) (sym one.0) room);
      right_least = two.1;
    }

-- The widths that the side without a given width starts from.
rest_after : (w d total : ℤ) → w +ℤ d +ℤ (total -ℤ w -ℤ d) ≡ total
rest_after w d total = omega int_laws

pub update_layout_right :
    (s : SplitView) (total w : ℤ)
    → s.flex ≡ right
    → s.total_width ≡ some total
    → s.left_width ≡ some w
    → update_layout s ≡ (
        let (a, b) =
          clamped w (total -ℤ w -ℤ s.divider_thickness) s.min_left_width s.min_right_width in
        record s { left_width = some a; right_width = some b })
unfolding update_layout
update_layout_right s total w f t l = ground (arith, f, t, l)

pub update_layout_left :
    (s : SplitView) (total w : ℤ)
    → s.flex ≡ left
    → s.total_width ≡ some total
    → s.right_width ≡ some w
    → update_layout s ≡ (
        let (a, b) =
          clamped (total -ℤ w -ℤ s.divider_thickness) w s.min_left_width s.min_right_width in
        record s { left_width = some a; right_width = some b })
unfolding update_layout
update_layout_left s total w f t r = ground (arith, f, t, r)

-- The width that is given: that of the side which does not take the space left.
abbrev pub given_width : SplitView → Option ℤ
given_width s = elim s.flex [ right ↦ s.left_width | left ↦ s.right_width ]

Fits-clamped :
    (s : SplitView) (l r total : ℤ)
    → l +ℤ s.divider_thickness +ℤ r ≡ total
    → HasRoom s total
    → let (a, b) = clamped l r s.min_left_width s.min_right_width in
      Fits (record s { left_width = some a; right_width = some b }) total
Fits-clamped s l r total e room =
    let sides =
      clamped-Sides l r s.divider_thickness total s.min_left_width s.min_right_width e room in
    record {
      left = _;
      right = _;
      left_is = refl;
      right_is = refl;
      fills = sides.fills;
      left_least = sides.left_least;
      right_least = sides.right_least;
    }

rest_before : (w d total : ℤ) → (total -ℤ w -ℤ d) +ℤ d +ℤ w ≡ total
rest_before w d total = omega int_laws

module _ (s : SplitView) (total : ℤ) (measured : s.total_width ≡ some total) where
  updated-Fits :
      (w : ℤ) (f : Flex)
      → s.flex ≡ f
      → given_width s ≡ some w
      → HasRoom s total
      → Fits (update_layout s) total
  updated-Fits w right f g room =
      subst (λ t. Fits t total)
        (sym (update_layout_right s total w f measured (ground (arith, f, g))))
        (Fits-clamped s w (total -ℤ w -ℤ s.divider_thickness) total
          (rest_after w s.divider_thickness total) room)
  updated-Fits w left f g room =
      subst (λ t. Fits t total)
        (sym (update_layout_left s total w f measured (ground (arith, f, g))))
        (Fits-clamped s (total -ℤ w -ℤ s.divider_thickness) w total
          (rest_before w s.divider_thickness total) room)

  -- Where the element's width is known and has room for both minimums and the divider, and the side that
  -- does not take the space left has a width: after an update of the layout the two sides and the
  -- divider make up the element's width, and no side is below its minimum.
  pub update_layout-Fits :
      (w : ℤ) → given_width s ≡ some w → HasRoom s total → Fits (update_layout s) total
  update_layout-Fits w = updated-Fits w s.flex refl

pub clamped_still :
    (a b least_left least_right : ℤ)
    → least_left ≤ℤ a
    → least_right ≤ℤ b
    → clamped a b least_left least_right ≡ (a, b)
clamped_still a b least_left least_right l r =
    let first : ltb_ℤ a least_left ≡ false = ground (arith, l) in
    let second : ltb_ℤ b least_right ≡ false = ground (arith, r) in ground (arith, first, second)
