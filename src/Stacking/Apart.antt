-- ===== src/Stacking/Apart.antt =====
-- layout_managers/vertical_stack_layout_manager.js: where the stacked views are.
use mathlib.Core.Path.{subst}
use flame_js.Prelude.{
  ℕ, zero, suc, ◌+◌, ◌≤◌, ◌<◌, ◌≡◌, Bool, true, false, Option, none, some, List, [], ◌∷◌, arith,
  get_elem?, Bool-cases, if◌then◌else◌, inl, inr, ap, sym, cases_keep,
}
use flame_js.Stacking.{
  Layout, Child, Manager, or_zero, affected, adjust_top, Stack, push, top_of, paddings, stack_up,
  Parent, heights_given, setup_layout,
}

abbrev or_else : {A : Type 0} → Option A → A → A
or_else none a = a
or_else (some b) a = b

-- The place below a view with this layout.
abbrev pub bottom : Layout → ℕ
bottom l = or_zero l.top + paddings l + or_zero l.height

-- The layouts of the children that are stacked, in turn.
unfoldable pub layouts : List Child → List Layout
layouts [] = []
layouts (c ∷ cs) = elim (affected c) [ none ↦ layouts cs | some l ↦ l ∷ layouts cs ]

abbrev pub Each : (Layout → Type 0) → List Layout → Type 0
Each P ls = (i : ℕ) (m : Layout) → get_elem? ls i ≡ some m → P m

-- Each is some space below the ones before it.
abbrev pub Apart : ℕ → List Layout → Type 0
Apart spacing ls =
    (i j : ℕ) (a b : Layout)
    → i < j
    → get_elem? ls i ≡ some a
    → get_elem? ls j ≡ some b
    → bottom a + spacing ≤ or_zero b.top

Each-∷ : (P : Layout → Type 0) (l : Layout) (ls : List Layout) → P l → Each P ls → Each P (l ∷ ls)
Each-∷ P l ls p ps zero m e = subst P (ap (λ o. or_else o l) e) p
Each-∷ P l ls p ps (suc i) m e = ps i m e

Apart-∷ :
    (spacing : ℕ) (l : Layout) (ls : List Layout)
    → Each (λ m. bottom l + spacing ≤ or_zero m.top) ls
    → Apart spacing ls
    → Apart spacing (l ∷ ls)
Apart-∷ spacing l ls p q zero zero a b lt e e' = absurd (omega (arith, lt))
Apart-∷ spacing l ls p q (suc i) zero a b lt e e' = absurd (omega (arith, lt))
Apart-∷ spacing l ls p q zero (suc j) a b lt e e' =
    subst (λ x. bottom x + spacing ≤ or_zero b.top) (ap (λ o. or_else o l) e) (p j b e')
Apart-∷ spacing l ls p q (suc i) (suc j) a b lt e e' = q i j a b (omega (arith, lt)) e e'

-- The children are stacked from a place on, below `top`, and end at the stack's top.
pub record Laid (spacing low top : ℕ) (s : Stack) : Type 0 where
  pub below : Each (λ m. low ≤ or_zero m.top) (layouts s.children)
  pub above : Each (λ m. bottom m ≤ s.top) (layouts s.children)
  pub ordered : top ≤ s.top
  pub apart : Apart spacing (layouts s.children)

abbrev low_of : ℕ → Bool → ℕ → ℕ
low_of spacing first top = if first then top else top + spacing

module _ (spacing : ℕ) (c : Child) (s : Stack) where
  Laid-kept :
      (low top : ℕ) → affected c ≡ none → Laid spacing low top s → Laid spacing low top (push c s)
  unfolding layouts
  Laid-kept low top e h =
      let same : layouts (c ∷ s.children) ≡ layouts s.children = ground (arith, e) in
      record {
        below = subst (Each (λ m. low ≤ or_zero m.top)) (sym same) h.below;
        above = subst (Each (λ m. bottom m ≤ s.top)) (sym same) h.above;
        ordered = h.ordered;
        apart = subst (Apart spacing) (sym same) h.apart;
      }

  layouts-adjust_top :
      (at : ℕ) (l : Layout)
      → affected c ≡ some l
      → layouts (adjust_top at l c ∷ s.children) ≡ record l { top = some at } ∷ layouts s.children
  unfolding layouts
  layouts-adjust_top at l e = ground (arith, e)

  Laid-push :
      (low top at down : ℕ) (l : Layout)
      → affected c ≡ some l
      → at + paddings l + or_zero l.height ≡ down
      → low ≤ at
      → top ≤ at
      → Laid spacing (down + spacing) down s
      → Laid spacing low top (push (adjust_top at l c) s)
  Laid-push low top at down l e d le after h =
      let same = layouts-adjust_top at l e in
      record {
        below = subst (Each (λ m. low ≤ or_zero m.top)) (sym same) (
            Each-∷ (λ m. low ≤ or_zero m.top) _ _ le
              (λ i m q. omega (arith, d, le, h.below i m q)));
        above =
            subst (Each (λ m. bottom m ≤ s.top)) (sym same)
              (Each-∷ (λ m. bottom m ≤ s.top) _ _ (omega (arith, d, h.ordered)) h.above);
        ordered = omega (arith, d, after, h.ordered);
        apart =
            subst (Apart spacing) (sym same)
              (Apart-∷ spacing _ _ (λ i m q. omega (arith, d, h.below i m q)) h.apart);
      }

module _ (spacing : ℕ) where
  pub stack_up-Laid :
      (first : Bool) (top : ℕ) (fluid : Bool) (cs : List Child)
      → Laid spacing (low_of spacing first top) top (stack_up spacing first top fluid cs)
  unfolding stack_up layouts
  stack_up-Laid first top fluid [] = record {
    below = λ i m e. ground (arith, e);
    above = λ i m e. ground (arith, e);
    ordered = ground arith;
    apart = λ i j a b lt e e'. ground (arith, e);
  }
  stack_up-Laid first top fluid (c ∷ cs) =
      let low = low_of spacing first top in
      cases_keep (Laid spacing low top) (affected c)
        (λ e. Laid-kept spacing c _ low top e (stack_up-Laid first top fluid cs))
        (λ l e.
          let at = top_of spacing first top l in
          cases_keep (Laid spacing low top) l.height
            (λ q.
              Laid-push spacing c _ low top at (at + paddings l) l e (ground (arith, q))
                (ground arith) (ground arith) (stack_up-Laid false (at + paddings l) true cs))
            (λ h q.
              Laid-push spacing c _ low top at (at + paddings l + h) l e (ground (arith, q))
                (ground arith) (ground arith) (stack_up-Laid false (at + paddings l + h) fluid cs)))

stack_of : Manager → Parent → Stack
stack_of m v = stack_up m.spacing true m.top_margin false v.children

setup_layout-children :
    (m : Manager) (v v' : Parent)
    → setup_layout m v ≡ some v'
    → v'.children ≡ (stack_of m v).children
unfolding setup_layout stack_of
setup_layout-children m v v' e = elim (Bool-cases (heights_given v.children)) [
  | inl t ↦ ground (arith, t, e)
  | inr t ↦ absurd (ground (arith, t, e))
]

-- After the layout is set up, with no assertion that throws: of two stacked children the later one begins
-- below the end of the earlier one and the spacing, and the earlier one is not above the margin at the top.
pub setup_layout_apart :
    (m : Manager) (v v' : Parent) (i j : ℕ) (a b : Layout)
    → setup_layout m v ≡ some v'
    → i < j
    → get_elem? (layouts v'.children) i ≡ some a
    → get_elem? (layouts v'.children) j ≡ some b
    → (bottom a + m.spacing ≤ or_zero b.top) × (m.top_margin ≤ or_zero a.top)
unfolding stack_of
setup_layout_apart m v v' i j a b set lt e e' =
    let laid = stack_up-Laid m.spacing true m.top_margin false v.children in
    let same = setup_layout-children m v v' set in
    let e₁ = subst (λ cs. get_elem? (layouts cs) i ≡ some a) same e in
    let e₂ = subst (λ cs. get_elem? (layouts cs) j ≡ some b) same e' in
    (laid.apart i j a b lt e₁ e₂, laid.below i a e₁)
