-- ===== src/KeyResponder/Modal.antt =====
-- mixins/event_manager.js: closing a modal element gives the key focus back.
use flame_js.Prelude.{ℕ, ◌≡◌, refl, Option, none, some, List, [], ◌∷◌, ap, arith, ==_iff}
use flame_js.KeyResponder.{current, Info, Responders, push, pop, replace, blur}

-- What happens while a modal element is open: clicks replace the responder, further modal elements
-- open and close.
pub data Session : Type 0 where
  nothing : Session
  click : ℕ → Session → Session
  modal : ℕ → Session → Session → Session

module _ (info : ℕ → Info) where
  -- A modal element is opened by `push` and closed by `pop`.
  unfoldable pub during : Session → Responders → Responders
  during nothing r = r
  during (click v s) r = during s (replace info (some v) r)
  during (modal v s rest) r = during rest (pop info (during s (push info (some v) r))).0

  pub stack-blur : (o : Option ℕ) (r : Responders) → (blur info o r).stack ≡ r.stack
  unfolding blur
  stack-blur none r = refl
  stack-blur (some v) r = ground arith

  stack-replace :
      (v : ℕ) (r : Responders) (t : ℕ) (rest : List ℕ)
      → r.stack ≡ t ∷ rest
      → (replace info (some v) r).stack ≡ v ∷ rest
  unfolding replace
  stack-replace v r t rest h = ground (arith, stack-blur (some t) r, ==_iff t v)

  pub stack-pop :
      (r : Responders) (t : ℕ) (rest : List ℕ) → r.stack ≡ t ∷ rest → (pop info r).0.stack ≡ rest
  unfolding pop
  stack-pop r t rest h = ground arith

  pub stack-during :
      (s : Session) (r : Responders) (t : ℕ) (rest : List ℕ)
      → r.stack ≡ t ∷ rest
      → (u : ℕ) × ((during s r).stack ≡ u ∷ rest)
  unfolding during push
  stack-during nothing r t rest h = (t, h)
  stack-during (click v s) r t rest h = stack-during s _ v rest (stack-replace v r t rest h)
  stack-during (modal v s after) r t rest h =
      let (u, open_) = stack-during s (push info (some v) r) v (t ∷ rest) (ap (v ∷◌) h) in
      stack-during after _ t rest (stack-pop _ u (t ∷ rest) open_)

  -- Whatever clicks and modal elements follow while a modal element is open, closing it restores
  -- the whole stack, and so the responder, from before it opened.
  pub stack-modal :
      (v : ℕ) (s : Session) (r : Responders)
      → (pop info (during s (push info (some v) r))).0.stack ≡ r.stack
  unfolding push
  stack-modal v s r =
      let (u, open_) = stack-during s (push info (some v) r) v r.stack refl in
      stack-pop _ u r.stack open_

  current_of : (r : Responders) (v : ℕ) (rest : List ℕ) → r.stack ≡ v ∷ rest → current r ≡ some v
  unfolding current
  current_of r v rest h = ground arith

  current-replace_on :
      (v : ℕ) (stack : List ℕ) (r : Responders)
      → r.stack ≡ stack
      → current (replace info (some v) r) ≡ some v
  unfolding replace current push
  current-replace_on v [] r h = ground arith
  current-replace_on v (t ∷ rest) r h =
      current_of (replace info (some v) r) v rest (stack-replace v r t rest h)

  -- After `replace` the view is the responder, whatever the stack was; after `push` too.
  pub current-replace : (v : ℕ) (r : Responders) → current (replace info (some v) r) ≡ some v
  current-replace v r = current-replace_on v r.stack r refl

  pub current-push : (v : ℕ) (r : Responders) → current (push info (some v) r) ≡ some v
  unfolding current push
  current-push v r = refl
