-- ===== src/EventManager/Bubbling.antt =====
-- mixins/event_manager.js: which view takes the key focus, and which handles a mouse event.
use flame_js.Prelude.{
  ℕ, ◌≡◌, refl, Bool, not, ◌&&◌, Option, none, some, List, [], ◌∷◌, arith, if◌then◌else◌,
}
use flame_js.KeyResponder.{current}
use flame_js.KeyResponder.Modal.{current-replace, current-push}
use flame_js.EventManager.{Manager, Views, path, become_on, become_key_responder}

module _ {W : Type 0} (views : Views W) where
  -- The first view of a path that accepts the key focus.
  pub first_accepting : W → List ℕ → Option ℕ
  first_accepting w [] = none
  first_accepting w (v ∷ rest) =
      if views.accepts_key_responder v && not (views.is_disabled v w)
      then some v
      else first_accepting w rest

  abbrev pub or_else : Option ℕ → Option ℕ → Option ℕ
  or_else none b = b
  or_else (some a) b = some a

  current-become_on :
      (replacing : Bool) (vs : List ℕ) (m : Manager W)
      → current (become_on views replacing vs m).responders
        ≡ or_else (first_accepting m.app vs) (current m.responders)
  unfolding become_on first_accepting
  current-become_on replacing [] m = refl
  current-become_on replacing (v ∷ rest) m = ground (
    arith,
    current-become_on replacing rest m,
    current-replace views.info v m.responders,
    current-push views.info v m.responders,
  )

  -- `becomeKeyResponder` on a view makes the responder the nearest view on the way from it to the root
  -- that accepts the key focus and is not disabled, by `replace` or by `push`; where there is none, the
  -- responder stays the same.
  pub current-become_key_responder :
      (replacing : Bool) (v : ℕ) (m : Manager W)
      → current (become_key_responder views replacing v m).responders
        ≡ or_else (first_accepting m.app (path views v)) (current m.responders)
  unfolding become_key_responder
  current-become_key_responder replacing v m = current-become_on replacing (path views v) m
