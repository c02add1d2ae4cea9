-- ===== src/ListView/Marking.antt =====
-- views/list_view.js: which child views are marked as selected.
use mathlib.Core.Path.{subst}
use flame_js.Prelude.{
  ℕ, suc, ◌≤◌, ◌≡◌, refl, sym, Bool, true, false, not, Option, none, some, List, [], ◌∷◌, arith,
  if_keeps, cases_keep, Bool-cases, Option-cases, inl, inr, get_elem?, ◌==◌, ==_iff,
}
use flame_js.Prelude.Items.{count, NoRepeats}
use flame_js.ListView.{
  Fields, ItemView, place_of, set_status, set_is_selected_status, same_item, set_selection,
}

-- Each child view is marked exactly if its item is the selected one.
unfoldable pub AllMarked : Option ℕ → List ℕ → List ItemView → Type 0
AllMarked o [] vs = Unit
AllMarked o (x ∷ xs) [] = Unit
AllMarked o (x ∷ xs) (v ∷ vs) = (v.is_selected ≡ same_item o (some x)) × AllMarked o xs vs

abbrev one : Bool → ℕ → Option ℕ
one true x = some x
one false x = none

-- An item that is not there marks none.
absent :
    (b c : Bool) (x : ℕ) (xs : List ℕ) (vs : List ItemView)
    → count x xs ≡ 0
    → AllMarked (one b x) xs vs
    → AllMarked (one c x) xs vs
unfolding AllMarked
absent b c x [] vs n h = tt
absent b c x (y ∷ ys) [] n h = tt
absent true true x (y ∷ ys) (v ∷ vs) n h = h
absent false false x (y ∷ ys) (v ∷ vs) n h = h
absent true false x (y ∷ ys) (v ∷ vs) n h = (
  ground (arith, n, h.0, ==_iff x y, ==_iff y x),
  absent true false x ys vs (ground (arith, n)) h.1,
)
absent false true x (y ∷ ys) (v ∷ vs) n h = (
  ground (arith, n, h.0, ==_iff x y, ==_iff y x),
  absent false true x ys vs (ground (arith, n)) h.1,
)

abbrev mark_at : ℕ → Bool → List ℕ → List ItemView → List ItemView
mark_at x b xs vs = elim (place_of x xs) [ none ↦ vs | some i ↦ set_status i b vs ]

set_status-suc :
    (i : ℕ) (b : Bool) (v : ItemView) (vs : List ItemView)
    → set_status (suc i) b (v ∷ vs) ≡ v ∷ set_status i b vs
set_status-suc i b v vs = elim (Option-cases (get_elem? vs i)) [
  | inl e ↦ ground (arith, e)
  | inr (w, e) ↦ ground (arith, e)
]

mark_at-here :
    (x : ℕ) (b : Bool) (y : ℕ) (ys : List ℕ) (v : ItemView) (vs : List ItemView)
    → (y == x) ≡ true
    → mark_at x b (y ∷ ys) (v ∷ vs) ≡ record v { is_selected = b } ∷ vs
unfolding place_of
mark_at-here x b y ys v vs e = ground (arith, e)

mark_at-there :
    (x : ℕ) (b : Bool) (y : ℕ) (ys : List ℕ) (v : ItemView) (vs : List ItemView)
    → (y == x) ≡ false
    → mark_at x b (y ∷ ys) (v ∷ vs) ≡ v ∷ mark_at x b ys vs
unfolding place_of
mark_at-there x b y ys v vs e = elim (Option-cases (place_of x ys)) [
  | inl q ↦ ground (arith, e, q)
  | inr (i, q) ↦ ground (arith, e, q, set_status-suc i b v vs)
]

here_marked : (b : Bool) (x y : ℕ) → (y == x) ≡ true → b ≡ same_item (one b x) (some y)
here_marked true x y t = ground (arith, t, ==_iff x y, ==_iff y x)
here_marked false x y t = refl

other_marked :
    (b m : Bool) (x y : ℕ)
    → (y == x) ≡ false
    → m ≡ same_item (one (not b) x) (some y)
    → m ≡ same_item (one b x) (some y)
other_marked true m x y t h = ground (arith, t, h, ==_iff x y, ==_iff y x)
other_marked false m x y t h = ground (arith, t, h, ==_iff x y, ==_iff y x)

mark_at-AllMarked :
    (b : Bool) (x : ℕ) (xs : List ℕ) (vs : List ItemView)
    → count x xs ≤ 1
    → AllMarked (one (not b) x) xs vs
    → AllMarked (one b x) xs (mark_at x b xs vs)
unfolding AllMarked
mark_at-AllMarked b x [] vs n h = tt
mark_at-AllMarked b x (y ∷ ys) [] n h =
    cases_keep (AllMarked (one b x) (y ∷ ys)) (place_of x (y ∷ ys)) (λ _. tt) (λ i _. tt)
mark_at-AllMarked b x (y ∷ ys) (v ∷ vs) n h = elim (Bool-cases (y == x)) [
  | inl t ↦
      subst (AllMarked (one b x) (y ∷ ys)) (sym (mark_at-here x b y ys v vs t))
        (here_marked b x y t, absent (not b) b x ys vs (ground (arith, n, t)) h.1)
  | inr t ↦ subst (AllMarked (one b x) (y ∷ ys)) (sym (mark_at-there x b y ys v vs t)) (
    other_marked b v.is_selected x y t h.0,
    mark_at-AllMarked b x ys vs (ground (arith, n, t)) h.1,
  )
]

-- The marks are those of the selection o, which a list has.
pub record Marked (o : Option ℕ) (f g : Fields) : Type 0 where
  pub marks : AllMarked o g.content g.children
  pub selection : g.selection ≡ f.selection
  pub content : g.content ≡ f.content

status_is :
    (x : ℕ) (b : Bool) (f : Fields)
    → set_is_selected_status (some x) b f ≡ record f { children = mark_at x b f.content f.children }
unfolding set_is_selected_status
status_is x b f = elim (Option-cases (place_of x f.content)) [
  | inl e ↦ ground (arith, e)
  | inr (i, e) ↦ ground (arith, e)
]

-- The observers before and after a change of the selection.
unmark :
    (o : Option ℕ) (f : Fields)
    → NoRepeats f.content
    → AllMarked o f.content f.children
    → Marked none f (set_is_selected_status o false f)
unfolding set_is_selected_status
unmark none f n h = record { marks = h; selection = refl; content = refl }
unmark (some x) f n h = subst (Marked none f) (sym (status_is x false f)) (record {
  marks = mark_at-AllMarked false x f.content f.children (n x) h;
  selection = refl;
  content = refl;
})

mark_new :
    (o : Option ℕ) (f : Fields)
    → NoRepeats f.content
    → AllMarked none f.content f.children
    → Marked o f (set_is_selected_status o true f)
unfolding set_is_selected_status
mark_new none f n h = record { marks = h; selection = refl; content = refl }
mark_new (some x) f n h = subst (Marked (some x) f) (sym (status_is x true f)) (record {
  marks = mark_at-AllMarked true x f.content f.children (n x) h;
  selection = refl;
  content = refl;
})

same_item-eq : (a b : Option ℕ) → same_item a b ≡ true → a ≡ b
same_item-eq none none h = refl
same_item-eq none (some y) h = absurd (ground (arith, h))
same_item-eq (some x) none h = absurd (ground (arith, h))
same_item-eq (some x) (some y) h = ground (arith, h, ==_iff x y)

-- Where no item is twice in the content and the child views are marked by the selection: after any
-- selection is set, it is the selection, and each child view is marked exactly if its item is selected.
pub set_selection-AllMarked :
    (o : Option ℕ) (f : Fields)
    → NoRepeats f.content
    → AllMarked f.selection f.content f.children
    → (let g = set_selection o f in AllMarked o g.content g.children × (g.selection ≡ o))
unfolding set_selection
set_selection-AllMarked o f n h =
    if_keeps (λ (g : Fields). AllMarked o g.content g.children × (g.selection ≡ o))
      (same_item f.selection o)
      (λ t.
        let e = same_item-eq f.selection o t in
        (subst (λ s. AllMarked s f.content f.children) e h, e))
      (λ _.
        let off = unmark f.selection f n h in
        let cleared = record (set_is_selected_status f.selection false f) { selection = o } in
        let on = mark_new o cleared (subst NoRepeats (sym off.content) n) off.marks in
        (on.marks, on.selection))
