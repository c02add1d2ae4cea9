-- ===== src/Button.antt =====
-- views/button_view.js: a button as a client of the statechart of statechart.js.
pub mod Flags
pub mod Clicks
use flame_js.Prelude.{
  ℕ, zero, suc, ◌+◌, ◌≡◌, Bool, true, false, not, Option, none, some, List, [], ◌∷◌, ◌++◌,
  if◌then◌else◌, get_elem?, erase_idx,
}
use flame_js.Statechart.{
  Property, state, Machine, Outcome, done, no_name, not_a_state, Chart, goto_flame_state, Reply,
  invoke_state_method,
}

pub data State : Type 0 where
  idle hover mouse_down_inside mouse_down_outside : State

pub State-discrete : Discrete State
State-discrete = hlevel

-- The callbacks that `simulateClick` schedules with `Ember.run.later`.
pub data Timer : Type 0 where
  -- of `idle`, after 150 ms: `mouseUp()` and `mouseLeave()`
  up_and_leave : Timer
  -- of `hover`, after 100 ms: `mouseUp`
  up : Timer

-- The button's properties that the states read or write, the calls of `fireAction` counted, and the
-- callbacks that are waiting.
pub record Fields : Type 0 where
  pub is_hovered : Bool
  pub is_active : Bool
  pub is_selected : Bool
  pub is_disabled : Bool
  pub is_sticky : Bool
  pub is_destroyed : Bool
  pub fired : ℕ
  pub timers : List Timer

abbrev pub Button : Type 0
Button = Machine State Fields

abbrev pub Method : Type 0
Method = Button → Button × Option Bool

abbrev pub button : Option State → Fields → Button
button n o = record { current = n; owner = o }

enter_state : State → Button → Button
enter_state hover b = button b.current (record b.owner { is_hovered = true })
enter_state mouse_down_inside b = button b.current (record b.owner { is_active = true })
enter_state _ b = b

exit_state : State → Button → Button
exit_state hover b =
    if b.owner.is_destroyed then b else button b.current (record b.owner { is_hovered = false })
exit_state mouse_down_inside b = button b.current (record b.owner { is_active = false })
exit_state _ b = b

chart : Chart State Fields
chart = record { resolve = λ n. state n; exit_state = exit_state; enter_state = enter_state }

-- Every name here is a state's, so the error results do not arise.
goto : State → Button → Button
unfolding goto_flame_state State-discrete chart enter_state exit_state
goto n b = elim (goto_flame_state State-discrete chart (some n) b) [
  | done b' ↦ b'
  | no_name ↦ b
  | not_a_state ↦ b
]

-- `_handleClick` of the state `mouseDownInside`.
handle_click : Button → Button
handle_click b = button b.current (record b.owner {
  fired = b.owner.fired + 1;
  is_selected = if b.owner.is_sticky then not b.owner.is_selected else b.owner.is_selected;
})

-- A method that goes to a state and returns true.
goes : State → Method
unfolding goto
goes n b = (goto n b, some true)

-- The methods `mouseDown`: only `hover` has one.
mouse_down_of : State → Option Method
unfolding goto
mouse_down_of hover =
    some (λ b. (if b.owner.is_disabled then b else goto mouse_down_inside b, some true))
mouse_down_of _ = none

-- No message of the button is `keyDown`, so the key handler is not reached.
no_keys : Method
no_keys b = (b, none)

-- `mouseDown()` called on the view, whose proxy method hands it to the current state.
mouse_down_on : Button → Button
unfolding invoke_state_method mouse_down_of no_keys
mouse_down_on b =
    (invoke_state_method (λ n (u : Unit {0}). mouse_down_of n) (λ u. false) no_keys tt b).0

later : Timer → Button → Button
later t b = button b.current (record b.owner { timers = b.owner.timers ++ t ∷ [] })

pub data Message : Type 0 where
  mouse_enter mouse_leave mouse_down mouse_up touch_start touch_end simulate_click : Message

methods : State → Message → Option Method
unfolding goes mouse_down_of mouse_down_on later handle_click
methods idle mouse_enter = some (goes hover)
methods idle touch_start = some (goes mouse_down_inside)
methods idle simulate_click = some (λ b. (later up_and_leave (mouse_down_on (goto hover b)), none))
methods hover mouse_leave = some (goes idle)
methods hover mouse_down = mouse_down_of hover
methods hover simulate_click =
    some (λ b. (later up (if b.owner.is_disabled then b else goto mouse_down_inside b), none))
methods mouse_down_inside mouse_up = some (λ b. goes hover (handle_click b))
methods mouse_down_inside touch_end = some (λ b. goes idle (handle_click b))
methods mouse_down_inside mouse_leave = some (goes mouse_down_outside)
methods mouse_down_outside mouse_up = some (goes idle)
methods mouse_down_outside mouse_enter = some (goes mouse_down_inside)
methods _ _ = none

unfoldable pub send : Message → Button → Button × Reply (Option Bool)
unfolding invoke_state_method methods no_keys
send msg b = invoke_state_method methods (λ u. false) no_keys msg b

-- What the callback of a timer does.
expire : Timer → Button → Button
unfolding send
expire up_and_leave b = (send mouse_leave (send mouse_up b).0).0
expire up b = (send mouse_up b).0

pub data Event : Type 0 where
  message : Message → Event
  -- `insertSpace` of the view, which calls its `simulateClick`
  insert_space : Event
  -- the waiting callback with this number runs
  timer : ℕ → Event
  -- the application sets `isDisabled`
  set_disabled : Bool → Event

expire_at : Option Timer → ℕ → Button → Button
unfolding expire
expire_at none i b = b
expire_at (some t) i b =
    expire t (button b.current (record b.owner { timers = erase_idx b.owner.timers i }))

unfoldable pub step : Button → Event → Button
unfolding send expire_at
step b (message msg) = (send msg b).0
step b insert_space = (send simulate_click b).0
step b (timer i) = expire_at (get_elem? b.owner.timers i) i b
step b (set_disabled v) = button b.current (record b.owner { is_disabled = v })

unfoldable pub run : Button → List Event → Button
run b [] = b
run b (e ∷ es) = run (step b e) es

-- `init` of the mixin: no current state, then `gotoFlameState(initialFlameState)`.
unfoldable pub init : Fields → Button
unfolding goto
init o = goto idle (button none o)
