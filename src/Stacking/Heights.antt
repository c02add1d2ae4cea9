-- ===== src/Stacking/Heights.antt =====
-- layout_managers/vertical_stack_layout_manager.js: the height of the view.
use flame_js.Prelude.{
  ℕ, ◌+◌, ◌≤◌, ◌<◌, ◌≡◌, refl, Bool, true, false, none, some, List, [], ◌∷◌, arith, get_elem?,
  length, length-get_elem?, Option-cases, inl, inr,
}
use flame_js.Stacking.{
  Layout, Child, Manager, affected, stack_up, top_of, paddings, Parent, heights_given,
  adjust_height, setup_layout,
}
use flame_js.Stacking.Apart.{bottom, layouts, stack_up-Laid}

-- Whether all of them have a height.
unfoldable pub all_fixed : List Layout → Bool
all_fixed [] = true
all_fixed (l ∷ ls) = elim l.height [ none ↦ false | some h ↦ all_fixed ls ]

stack_up-fluid :
    (spacing : ℕ) (first : Bool) (top : ℕ) (fluid : Bool) (cs : List Child)
    → all_fixed (layouts cs) ≡ true
    → (stack_up spacing first top fluid cs).fluid ≡ fluid
unfolding stack_up layouts all_fixed
stack_up-fluid spacing first top fluid [] h = refl
stack_up-fluid spacing first top fluid (c ∷ cs) h = elim (Option-cases (affected c)) [
  | inl e ↦ ground (arith, h, e, stack_up-fluid spacing first top fluid cs)
  | inr (l, e) ↦ elim (Option-cases l.height) [
    | inl q ↦ ground (arith, h, e, q)
    | inr (n, q) ↦
        let at = top_of spacing first top l in
        ground (arith, h, e, q, stack_up-fluid spacing false (at + paddings l + n) fluid cs)
  ]
]

all_fixed-heights_given :
    (cs : List Child) → all_fixed (layouts cs) ≡ true → heights_given cs ≡ true
unfolding layouts all_fixed heights_given
all_fixed-heights_given [] h = refl
all_fixed-heights_given (c ∷ cs) h = elim (Option-cases (affected c)) [
  | inl e ↦ ground (arith, h, e, all_fixed-heights_given cs)
  | inr (l, e) ↦ elim (Option-cases l.height) [
    | inl q ↦ ground (arith, h, e, q)
    | inr (n, q) ↦ ground (arith, h, e, q, all_fixed-heights_given cs)
  ]
]

length-layouts :
    (spacing : ℕ) (first : Bool) (top : ℕ) (fluid : Bool) (cs : List Child)
    → length (layouts (stack_up spacing first top fluid cs).children) ≡ length (layouts cs)
unfolding stack_up layouts
length-layouts spacing first top fluid [] = refl
length-layouts spacing first top fluid (c ∷ cs) = elim (Option-cases (affected c)) [
  | inl e ↦ ground (arith, e, length-layouts spacing first top fluid cs)
  | inr (l, e) ↦
      let at = top_of spacing first top l in
      elim (Option-cases l.height) [
        | inl q ↦ ground (arith, e, q, length-layouts spacing false (at + paddings l) true cs)
        | inr (n, q) ↦
            ground (arith, e, q, length-layouts spacing false (at + paddings l + n) fluid cs)
      ]
]

-- Where all stacked children have a height and the view has no maximum: the layout is set up, each of them
-- still has a layout, and the view gets a height in which it ends above the margin at the bottom.
pub setup_layout_inside :
    (m : Manager) (v : Parent) (i : ℕ)
    → all_fixed (layouts v.children) ≡ true
    → v.layout.max_height ≡ none
    → i < length (layouts v.children)
    → (v' : Parent) × (a : Layout) × (h : ℕ) × (setup_layout m v ≡ some v')
      × (get_elem? (layouts v'.children) i ≡ some a)
      × (v'.layout.height ≡ some h)
      × (bottom a + m.bottom_margin ≤ h)
unfolding setup_layout
setup_layout_inside m v i fixed free less =
    let s = stack_up m.spacing true m.top_margin false v.children in
    let laid = stack_up-Laid m.spacing true m.top_margin false v.children in
    let count = length-layouts m.spacing true m.top_margin false v.children in
    let still = stack_up-fluid m.spacing true m.top_margin false v.children fixed in
    let given = all_fixed-heights_given v.children fixed in
    elim (Option-cases (get_elem? (layouts s.children) i)) [
      | inl n ↦ absurd (omega (arith, less, count, length-get_elem? (layouts s.children) i n))
      | inr (a, e) ↦ (
        record {
          layout = adjust_height s.fluid (s.top + m.bottom_margin) v.layout;
          children = s.children;
        },
        a,
        s.top + m.bottom_margin,
        ground (arith, given, still),
        e,
        ground (arith, free, still),
        omega (arith, laid.above i a e),
      )
    ]
