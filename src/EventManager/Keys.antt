-- ===== src/EventManager/Keys.antt =====
-- mixins/event_manager.js: key bindings, and the way of a key event up the views.
use flame_js.Prelude.{
  ℕ, ◌≡◌, ◌≢◌, ◌∙◌, refl, true, false, Option, none, some, List, [], ◌∷◌, ◌++◌, arith,
}
use flame_js.EventManager.{
  allow_default, handled, ignored, KeyEvent, key_down, key_press, Manager, Handler, Views, Key,
  Command, call, key_bindings, modified_key_bindings, handle_key_event, command_of, interpret_kind,
  interpret_key_events, interpret,
}

-- With shift a key is bound only if it is bound without, and to another command: shift takes away
-- the meaning of Enter, Escape, space and Delete.
pub modified_key_bindings-key_bindings :
    (c : ℕ) {x : Command}
    → modified_key_bindings c ≡ some x
    → (key_bindings c ≢ none) × (key_bindings c ≢ some x)
unfolding modified_key_bindings key_bindings
modified_key_bindings-key_bindings c h = (ground arith, ground arith)

-- The views of a path that have neither a key handler nor a handler for the key's command.
abbrev pub Silent : {W : Type 0} → Views W → Key → List ℕ → Type 0
Silent views k [] = Unit
Silent views k (v ∷ vs) =
    (views.key_handler v k.kind ≡ none)
    × ((c : Command) → views.command_handler v c ≡ none)
    × Silent views k vs

module _ {W : Type 0} (views : Views W) where
  interpret-none :
      (v : ℕ) (o : Option Command) (m : Manager W)
      → ((c : Command) → views.command_handler v c ≡ none)
      → interpret views v o m ≡ (m, ignored)
  unfolding interpret call
  interpret-none v none m h = refl
  interpret-none v (some c) m h = ground (arith, h c)

  interpret_silent :
      (kind : KeyEvent) (v : ℕ) (k : Key) (m : Manager W)
      → ((c : Command) → views.command_handler v c ≡ none)
      → interpret_kind views kind v k m ≡ (m, ignored)
  unfolding interpret_kind interpret_key_events
  interpret_silent key_press v k m h = refl
  interpret_silent key_down v k m h = interpret-none v (command_of views k) m h

  -- Views that do not care for a key are passed by: the event reaches the next view above them in the
  -- state it started in, and above the root the browser goes on.
  pub handle_key_event-Silent :
      (k : Key) (vs ws : List ℕ) (m : Manager W)
      → Silent views k vs
      → handle_key_event views (vs ++ ws) k m ≡ handle_key_event views ws k m
  unfolding handle_key_event
  handle_key_event-Silent k [] ws m s = refl
  handle_key_event-Silent k (v ∷ vs) ws m (a, b, c) =
      ground (arith, interpret_silent k.kind v k m b, handle_key_event-Silent k vs ws m c)

  handle_command :
      (k : Key) (v : ℕ) (ws : List ℕ) (c : Command) (h : Handler W) (m : Manager W)
      → k.kind ≡ key_down
      → command_of views k ≡ some c
      → views.key_handler v key_down ≡ none
      → views.command_handler v c ≡ some h
      → handle_key_event views (v ∷ ws) k m ≡ elim (h m).1 [
        | allow_default ↦ ((h m).0, true)
        | handled ↦ ((h m).0, false)
        | ignored ↦ handle_key_event views ws k (h m).0
      ]
  unfolding handle_key_event
  handle_command k v ws c h m kind e none_ some_ = ground arith

  -- The nearest view that has the command of a pressed key, below which no view cares for the key,
  -- decides: the browser goes on if the command asks for it, it is stopped if the command was carried
  -- out, and the views further up are asked if it was refused.
  pub handle_key_event_command :
      (k : Key) (vs : List ℕ) (v : ℕ) (ws : List ℕ) (c : Command) (h : Handler W) (m : Manager W)
      → Silent views k vs
      → k.kind ≡ key_down
      → command_of views k ≡ some c
      → views.key_handler v key_down ≡ none
      → views.command_handler v c ≡ some h
      → handle_key_event views (vs ++ v ∷ ws) k m ≡ elim (h m).1 [
        | allow_default ↦ ((h m).0, true)
        | handled ↦ ((h m).0, false)
        | ignored ↦ handle_key_event views ws k (h m).0
      ]
  handle_key_event_command k vs v ws c h m s kind e none_ some_ =
      handle_key_event-Silent k vs (v ∷ ws) m s ∙ handle_command k v ws c h m kind e none_ some_
