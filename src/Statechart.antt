-- ===== src/Statechart.antt =====
-- statechart.js: the mixin that gives a view named states, with hooks on entry and exit, and that
-- hands the methods called on the view to its current state.
pub mod Transitions
use flame_js.Prelude.{◌≡◌, Bool, true, false, not, Option, none, some, if◌then◌else◌, ◌↔◌}
use mathlib.Core.Logic.{ite}

-- What a property of the view holds: nothing, a value that is no `State`, or a state's name.
pub data Property (N : Type 0) : Type 0 where
  missing : Property N
  value : Property N
  state : N → Property N

-- A view with a statechart: `currentFlameState` and the view's own fields.
pub record Machine (N O : Type 0) : Type 0 where
  pub current : Option N
  pub owner : O

pub data Outcome (A : Type 0) : Type 0 where
  done : A → Outcome A
  -- the assertion on a missing name, and the error "%@ is not a state!"
  no_name : Outcome A
  not_a_state : Outcome A

-- The state objects: how a name resolves on the view, and the two hooks (the identity where a state
-- defines none). A hook runs on the whole machine, since it may change the state again.
pub record Chart (N O : Type 0) : Type 0 where
  pub resolve : N → Property N
  pub exit_state : N → Machine N O → Machine N O
  pub enter_state : N → Machine N O → Machine N O

module _ {N O : Type 0} (same : Discrete N) (c : Chart N O) where
  -- `if (currentFlameState.exitState) currentFlameState.exitState()`
  leave : Option N → Machine N O → Machine N O
  leave none m = m
  leave (some n) m = c.exit_state n m

  move_to : N → Machine N O → Machine N O
  unfolding leave
  move_to n m = c.enter_state n (record (leave m.current m) { current = some n })

  -- The comparison `currentFlameState === newState`, where both may be undefined.
  goto_property : Option N → Property N → Machine N O → Outcome (Machine N O)
  unfolding move_to
  goto_property none missing m = done m
  goto_property none value m = not_a_state
  goto_property none (state n) m = done (move_to n m)
  goto_property (some k) missing m = not_a_state
  goto_property (some k) value m = not_a_state
  goto_property (some k) (state n) m = ite (same k n) (done m) (done (move_to n m))

  unfoldable pub goto_flame_state : Option N → Machine N O → Outcome (Machine N O)
  unfolding goto_property
  goto_flame_state none m = no_name
  goto_flame_state (some n) m = goto_property m.current (c.resolve n) m

-- What `invokeStateMethod` does: the current state's method, or the key handler of the view for a
-- `keyDown` that the state does not define, or nothing.
pub data Reply (R : Type 0) : Type 0 where
  returned : R → Reply R
  undefined : Reply R
  no_current_state : Reply R

module _ {N O R : Type 0} where
  invoke_on :
      Option (Machine N O → Machine N O × R)
      → Bool
      → (Machine N O → Machine N O × R)
      → Machine N O
      → Machine N O × Reply R
  invoke_on (some f) is_key_down keys m = let (m', r) = f m in (m', returned r)
  invoke_on none true keys m = let (m', r) = keys m in (m', returned r)
  invoke_on none false keys m = (m, undefined)

module _ {N O M R : Type 0} where
  invoke_in :
      (N → M → Option (Machine N O → Machine N O × R))
      → (M → Bool)
      → (Machine N O → Machine N O × R)
      → Option N
      → M
      → Machine N O
      → Machine N O × Reply R
  unfolding invoke_on
  invoke_in methods is_key_down keys none msg m = (m, no_current_state)
  invoke_in methods is_key_down keys (some n) msg m =
      invoke_on (methods n msg) (is_key_down msg) keys m

  -- `methods n msg` is the method of state `n` for the message, if it defines one; `keys` is
  -- `!this._handleKeyEvent(...)` of the view.
  unfoldable pub invoke_state_method :
      (N → M → Option (Machine N O → Machine N O × R))
      → (M → Bool)
      → (Machine N O → Machine N O × R)
      → M
      → Machine N O
      → Machine N O × Reply R
  unfolding invoke_in
  invoke_state_method methods is_key_down keys msg m =
      invoke_in methods is_key_down keys m.current msg m
