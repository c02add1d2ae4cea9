-- ===== src/SplitView/Resizing.antt =====
-- views/vertical_split_view.js: dragging the divider there and back.
use mathlib.Core.Path.{subst}
use flame_js.Prelude.{◌≡◌, refl, sym, ap, ◌∙◌, Option, some, List, [], ◌∷◌, ◌++◌, arith}
use flame_js.Prelude.Int.{ℤ, ◌+ℤ◌, ◌-ℤ◌, int_laws}
use flame_js.SplitView.{
  Flex, right, left, SplitView, update_layout, set_left, set_right, start_resize, resize,
  resize_all,
}
use flame_js.SplitView.Layout.{
  Fits, clamped, clamped_still, update_layout_right, update_layout_left,
}

-- The view with other widths.
abbrev with_widths : Option ℤ → Option ℤ → SplitView → SplitView
with_widths l r s = record s { left_width = l; right_width = r }

-- Moving the pointer changes the widths only.
resize-widths :
    (x : ℤ) (f : Flex) (s : SplitView)
    → s.flex ≡ f
    → resize x s ≡ with_widths (resize x s).left_width (resize x s).right_width s
unfolding resize update_layout
resize-widths x right s f = ground (arith, f)
resize-widths x left s f = ground (arith, f)

resize_all-widths :
    (xs : List ℤ) (s : SplitView)
    → resize_all xs s ≡ with_widths (resize_all xs s).left_width (resize_all xs s).right_width s
unfolding resize_all
resize_all-widths [] s = refl
resize_all-widths (x ∷ xs) s =
    resize_all-widths xs (resize x s)
    ∙ ap
        (with_widths (resize_all xs (resize x s)).left_width
          (resize_all xs (resize x s)).right_width)
        (resize-widths x s.flex s refl)

resize_all-append :
    (xs : List ℤ) (x : ℤ) (s : SplitView) → resize_all (xs ++ x ∷ []) s ≡ resize x (resize_all xs s)
unfolding resize_all
resize_all-append [] x s = refl
resize_all-append (y ∷ xs) x s = resize_all-append xs x (resize y s)

moved_back_left : (w x : ℤ) → w +ℤ (x -ℤ x) ≡ w
moved_back_left w x = omega int_laws

moved_back_right : (w x : ℤ) → w -ℤ (x -ℤ x) ≡ w
moved_back_right w x = omega int_laws

module _ (s : SplitView) (total : ℤ) (measured : s.total_width ≡ some total)
    (fit : Fits s total) where
  rest_right : total -ℤ fit.left -ℤ s.divider_thickness ≡ fit.right
  rest_right =
      let same : fit.left +ℤ s.divider_thickness +ℤ fit.right -ℤ fit.left -ℤ s.divider_thickness
          ≡ fit.right =
        omega int_laws in
      subst (λ t. t -ℤ fit.left -ℤ s.divider_thickness ≡ fit.right) fit.fills same

  rest_left : total -ℤ fit.right -ℤ s.divider_thickness ≡ fit.left
  rest_left =
      let same : fit.left +ℤ s.divider_thickness +ℤ fit.right -ℤ fit.right -ℤ s.divider_thickness
          ≡ fit.left =
        omega int_laws in
      subst (λ t. t -ℤ fit.right -ℤ s.divider_thickness ≡ fit.left) fit.fills same

  start : ℤ → Option ℤ → Option ℤ → SplitView
  start x l r = with_widths l r (start_resize x s)

  -- The widths from before are set when the pointer is back.
  back_to_left :
      (x : ℤ) (l r : Option ℤ)
      → s.flex ≡ right
      → resize x (start x l r) ≡ update_layout (start x (some fit.left) r)
  unfolding resize start_resize start set_left
  back_to_left x l r f = ground (arith, f, fit.left_is, moved_back_left fit.left x)

  back_to_right :
      (x : ℤ) (l r : Option ℤ)
      → s.flex ≡ left
      → resize x (start x l r) ≡ update_layout (start x l (some fit.right))
  unfolding resize start_resize start set_right
  back_to_right x l r f = ground (arith, f, fit.right_is, moved_back_right fit.right x)

  -- The two widths of a view.
  SameWidths : SplitView → Type 0
  SameWidths b = (b.left_width ≡ s.left_width) × (b.right_width ≡ s.right_width)

  still : clamped fit.left fit.right s.min_left_width s.min_right_width ≡ (fit.left, fit.right)
  still =
      clamped_still fit.left fit.right s.min_left_width s.min_right_width fit.left_least
        fit.right_least

  same_sides :
      (sides : ℤ × ℤ)
      → sides ≡ (fit.left, fit.right)
      → (some sides.0 ≡ s.left_width) × (some sides.1 ≡ s.right_width)
  same_sides sides e = (
    ap (λ (p : ℤ × ℤ). some p.0) e ∙ sym fit.left_is,
    ap (λ (p : ℤ × ℤ). some p.1) e ∙ sym fit.right_is,
  )

  back : (x : ℤ) (f : Flex) (l r : Option ℤ) → s.flex ≡ f → SameWidths (resize x (start x l r))
  unfolding SameWidths start start_resize
  back x right l r f =
      subst SameWidths
        (sym (
          back_to_left x l r f
          ∙ update_layout_right (start x (some fit.left) r) total fit.left f measured refl))
        (same_sides _
          (ap (λ w. clamped fit.left w s.min_left_width s.min_right_width) rest_right ∙ still))
  back x left l r f =
      subst SameWidths
        (sym (
          back_to_right x l r f
          ∙ update_layout_left (start x l (some fit.right)) total fit.right f measured refl))
        (same_sides _
          (ap (λ w. clamped w fit.right s.min_left_width s.min_right_width) rest_left ∙ still))

  -- The element's width is known, and the sides fit in it. A drag of the divider, by whatever places, that
  -- ends where it began leaves both sides with the widths that they had.
  pub resize_back :
      (x : ℤ) (xs : List ℤ)
      → let b = resize_all (xs ++ x ∷ []) (start_resize x s) in
        (b.left_width ≡ s.left_width) × (b.right_width ≡ s.right_width)
  unfolding SameWidths start
  resize_back x xs =
      let moved = resize_all xs (start_resize x s) in
      subst SameWidths
        (sym (
          resize_all-append xs x (start_resize x s)
          ∙ ap (resize x) (resize_all-widths xs (start_resize x s))))
        (back x s.flex moved.left_width moved.right_width refl)
