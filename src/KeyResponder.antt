-- ===== src/KeyResponder.antt =====
-- mixins/event_manager.js: the stack of key responder views.
pub mod Modal
pub mod Focus
use flame_js.Prelude.{
  ℕ, ◌≡◌, Bool, true, false, not, ◌&&◌, Option, none, some, List, [], ◌∷◌, ◌++◌, if◌then◌else◌,
  ◌==◌, take,
}

-- What the stack reads of a view, or of a plain DOM element, which has no `set`.
pub record Info : Type 0 where
  pub is_view : Bool
  pub has_set : Bool
  pub is_destroyed : Bool

-- The hooks that are called on the views, and the notification of observers, in order.
pub data Signal : Type 0 where
  will_become did_become will_lose did_lose blurred : ℕ → Signal
  current_changed : Signal

-- Views are numbered. The array's last element, the current responder, is the list's head.
pub record Responders : Type 0 where
  pub stack : List ℕ
  pub is_focused : ℕ → Bool
  pub signals : List Signal

abbrev pub responders : List ℕ → (ℕ → Bool) → List Signal → Responders
responders stack f signals = record { stack = stack; is_focused = f; signals = signals }

pub current : Responders → Option ℕ
current r = elim r.stack [ [] ↦ none | v ∷ _ ↦ some v ]

focus : ℕ → Bool → (ℕ → Bool) → ℕ → Bool
focus v b f w = if v == w then b else f w

emit : List Signal → Responders → Responders
emit xs r = record r { signals = r.signals ++ xs }

module _ (info : ℕ → Info) where
  -- `if (view.set && !view.isDestroyed) view.set('isFocused', b)`
  set_focused : ℕ → Bool → (ℕ → Bool) → ℕ → Bool
  unfolding focus
  set_focused v b f = if (info v).has_set && not (info v).is_destroyed then focus v b f else f

  push_view : ℕ → Responders → Responders
  unfolding set_focused emit
  push_view v r =
      emit (will_become v ∷ did_become v ∷ current_changed ∷ [])
        (record r { stack = v ∷ r.stack; is_focused = set_focused v true r.is_focused })

  unfoldable pub push : Option ℕ → Responders → Responders
  unfolding push_view
  push none r = r
  push (some v) r = push_view v r

  pop_from : List ℕ → Responders → Responders × Option ℕ
  unfolding set_focused emit
  pop_from [] r = (r, none)
  pop_from (v ∷ rest) r = (
    emit (will_lose v ∷ did_lose v ∷ current_changed ∷ [])
        (record r { stack = rest; is_focused = set_focused v false r.is_focused }),
    some v,
  )

  unfoldable pub pop : Responders → Responders × Option ℕ
  unfolding pop_from
  pop r = pop_from r.stack r

  same_view : Option ℕ → Option ℕ → Bool
  same_view none none = true
  same_view (some v) (some w) = v == w
  same_view none (some w) = false
  same_view (some v) none = false

  -- `if (current && !(current instanceof Ember.View)) current.blur()`
  pub blur : Option ℕ → Responders → Responders
  unfolding emit
  blur none r = r
  blur (some v) r = if (info v).is_view then r else emit (blurred v ∷ []) r

  unfoldable pub replace : Option ℕ → Responders → Responders
  unfolding current same_view blur push pop
  replace v r = if same_view (current r) v then r else push v (pop (blur (current r) r)).0
