-- ===== src/KeyResponder/Focus.antt =====
-- mixins/event_manager.js: `isFocused` against the stack.
use flame_js.KeyResponder.Modal.{stack-blur, stack-pop}
use flame_js.Prelude.{
  ℕ, ◌≡◌, refl, ◌≢◌, Bool, true, false, ◌||◌, Option, none, some, List, [], ◌∷◌, arith, ◌==◌,
  ==_iff, tail, Bool-cases, inl, inr,
}
use flame_js.KeyResponder.{Info, Signal, responders, Responders, push, pop, replace, blur}

abbrev pub member : ℕ → List ℕ → Bool
member w [] = false
member w (v ∷ vs) = v == w || member w vs

abbrev pub Distinct : List ℕ → Type 0
Distinct [] = Unit
Distinct (v ∷ vs) = (member v vs ≡ false) × Distinct vs

-- `isFocused` is set on the views in the stack, each of which stands there once, and on no other.
pub record InFocus (r : Responders) : Type 0 where
  pub distinct : Distinct r.stack
  pub agrees : (w : ℕ) → r.is_focused w ≡ member w r.stack

-- Views that are alive, all with `set`.
abbrev pub Live : (ℕ → Info) → Type 0
Live info = (v : ℕ) → ((info v).has_set ≡ true) × ((info v).is_destroyed ≡ false)

module _ (info : ℕ → Info) (live : Live info) where
  -- Pushing a view that is not in the stack keeps the two in step.
  pub push-InFocus :
      (v : ℕ) (r : Responders)
      → member v r.stack ≡ false
      → InFocus r
      → InFocus (push info (some v) r)
  unfolding push
  push-InFocus v r new h = record {
    distinct = (new, h.distinct);
    agrees = λ w. ground (arith, live v, h.agrees w);
  }

  pop_on :
      (stack : List ℕ) (f : ℕ → Bool) (signals : List Signal)
      → InFocus (responders stack f signals)
      → InFocus (pop info (responders stack f signals)).0
  unfolding pop
  pop_on [] f signals h = h
  pop_on (v ∷ rest) f signals h = record {
    distinct = h.distinct.1;
    agrees = λ w. ground (arith, live v, h.agrees w, ==_iff v w, h.distinct.0);
  }

  -- So does popping.
  pub pop-InFocus : (r : Responders) → InFocus r → InFocus (pop info r).0
  pop-InFocus r h = pop_on r.stack r.is_focused r.signals h

  blur-InFocus : (o : Option ℕ) (r : Responders) → InFocus r → InFocus (blur info o r)
  unfolding blur
  blur-InFocus none r h = h
  blur-InFocus (some v) r h = elim (Bool-cases (info v).is_view) [
    | inl e ↦ rw e h
    | inr e ↦ rw e (record { distinct = h.distinct; agrees = h.agrees })
  ]

  replace_on :
      (v : ℕ) (stack : List ℕ) (f : ℕ → Bool) (signals : List Signal)
      → member v (tail stack) ≡ false
      → InFocus (responders stack f signals)
      → InFocus (replace info (some v) (responders stack f signals))
  unfolding replace
  replace_on v [] f signals new h = push-InFocus v _ refl h
  replace_on v (t ∷ rest) f signals new h = elim (Bool-cases (t == v)) [
    | inl e ↦ rw e h
    | inr e ↦ rw e (
        push-InFocus v (pop info (blur info (some t) r)).0
          (rw (stack-pop info (blur info (some t) r) t rest (stack-blur info (some t) r)) new)
          (pop-InFocus _ (blur-InFocus (some t) r h)))
  ]
    where
      r : Responders
      r = responders (t ∷ rest) f signals

  -- Replacing the responder by a view that is not further down in the stack keeps the two in step.
  pub replace-InFocus :
      (v : ℕ) (r : Responders)
      → member v (tail r.stack) ≡ false
      → InFocus r
      → InFocus (replace info (some v) r)
  replace-InFocus v r new h = replace_on v r.stack r.is_focused r.signals new h

  -- Where all views are alive and have `set`: a click on a view that is further down in the stack, as one
  -- below an open modal element, puts it on top of the views below the old responder, among which it
  -- already is. When the top then pops, the view is still in the stack and is not focused.
  pub replace-pop_unfocused :
      (t v : ℕ) (rest : List ℕ) (r : Responders)
      → t ≢ v
      → r.stack ≡ t ∷ rest
      → member v rest ≡ true
      → let clicked = replace info (some v) r in
        let after = (pop info clicked).0 in
        (clicked.stack ≡ v ∷ rest)
        × (after.stack ≡ rest)
        × (member v after.stack ≡ true)
        × (after.is_focused v ≡ false)
  unfolding replace pop push
  replace-pop_unfocused t v rest r ne e inside = (
    ground (arith, e, stack-blur info (some t) r, ==_iff t v),
    ground (arith, e, stack-blur info (some t) r, ==_iff t v),
    ground (arith, e, stack-blur info (some t) r, ==_iff t v, inside),
    ground (arith, e, stack-blur info (some t) r, live v, ==_iff t v, ==_iff v v),
  )
