-- ===== src/EventManager.antt =====
-- mixins/event_manager.js: how mouse and key events find the view that handles them.
pub mod Capture
pub mod Bubbling
pub mod Keys
use flame_js.Prelude.{
  ℕ, ◌≡◌, Bool, true, false, not, ◌&&◌, ◌||◌, Option, none, some, List, [], ◌∷◌, if◌then◌else◌,
  ◌==◌,
}
use flame_js.KeyResponder.{Info, Responders, current, push, pop, replace}

-- What a handler gives back: the marker `ALLOW_BROWSER_DEFAULT_HANDLING`, a truthy or a falsy value.
pub data Answer : Type 0 where
  allow_default handled ignored : Answer

pub data MouseEvent : Type 0 where
  mouse_down mouse_up mouse_move double_click : MouseEvent

pub data KeyEvent : Type 0 where
  key_down key_press : KeyEvent

-- The commands that keys stand for.
pub data Command : Type 0 where
  delete_backward insert_tab insert_newline cancel insert_space move_left move_up move_right :
      Command
  move_down delete_forward insert_backtab : Command
  move_left_and_modify_selection move_up_and_modify_selection : Command
  move_right_and_modify_selection move_down_and_modify_selection : Command

-- The event manager's state; `app` is that of the application, which handlers may change.
pub record Manager (W : Type 0) : Type 0 where
  pub mouse_responder : Option ℕ
  pub responders : Responders
  pub app : W

abbrev pub Handler : Type 0 → Type 0
Handler W = Manager W → Manager W × Answer

-- What the event manager reads of the views: for each its ancestors, nearest first, whether it is in
-- the DOM and visible, what decides on key focus, and its handlers.
pub record Views (W : Type 0) : Type 0 where
  pub info : ℕ → Info
  pub ancestors : ℕ → List ℕ
  pub in_dom : ℕ → W → Bool
  pub is_visible : ℕ → W → Bool
  pub accepts_key_responder : ℕ → Bool
  pub is_disabled : ℕ → W → Bool
  pub mouse_handler : ℕ → MouseEvent → Option (Handler W)
  -- the handlers `keyDown` and `keyPress`, which are given the view that they are called on
  pub key_handler : ℕ → KeyEvent → Option (Option ℕ → Handler W)
  pub command_handler : ℕ → Command → Option (Handler W)

module _ {W : Type 0} (views : Views W) where
  -- The views that an event passes, from the one it is aimed at to the root.
  abbrev pub path : ℕ → List ℕ
  path v = v ∷ views.ancestors v

  unfoldable pub call : Option (Handler W) → Handler W
  call none m = (m, ignored)
  call (some h) m = h m

  -- `_dispatch`: the result is the view that handled the event, if any.
  unfoldable pub dispatch : MouseEvent → List ℕ → Manager W → Manager W × Option ℕ
  unfolding call
  dispatch e [] m = (m, none)
  dispatch e (v ∷ rest) m =
      let (m', answer) = call (views.mouse_handler v e) m in
      elim answer [
        | allow_default ↦ (m', none)
        | handled ↦ (m', some v)
        | ignored ↦ dispatch e rest m'
      ]

  -- `becomeKeyResponder(replace)`, along the parents.
  unfoldable pub become_on : Bool → List ℕ → Manager W → Manager W
  become_on replacing [] m = m
  become_on replacing (v ∷ rest) m =
      if views.accepts_key_responder v && not (views.is_disabled v m.app)
      then record m {
        responders =
            if replacing
            then replace views.info (some v) m.responders
            else push views.info (some v) m.responders;
      }
      else become_on replacing rest m

  unfoldable pub become_key_responder : Bool → ℕ → Manager W → Manager W
  unfolding become_on
  become_key_responder replacing v m = become_on replacing (path v) m

  unfoldable pub resign_key_responder : Manager W → Manager W
  resign_key_responder m = record m { responders = (pop views.info m.responders).0 }

  is_none : Option ℕ → Bool
  is_none none = true
  is_none (some _) = false

  -- The result of the event manager's handlers is the negation of "some view handled it".
  finish : Manager W × Option ℕ → Manager W × Bool
  unfolding is_none
  finish (m, v) = (m, is_none v)

  capture : Manager W × Option ℕ → Manager W × Bool
  capture (m, none) = (m, true)
  capture (m, some v) = (record m { mouse_responder = some v }, false)

  unfoldable pub on_mouse_down : ℕ → Manager W → Manager W × Bool
  unfolding capture become_key_responder
  on_mouse_down v m = capture (
      dispatch mouse_down (path v)
        (record (become_key_responder true v m) { mouse_responder = none }))

  -- The view that the event goes to, if a view has captured the mouse: nothing is done if that
  -- view is no longer in the DOM.
  mouse_up_for : Option ℕ → ℕ → Manager W → Manager W × Bool
  unfolding finish
  mouse_up_for none v m = finish (dispatch mouse_up (path v) m)
  mouse_up_for (some r) v m =
      if views.in_dom r m.app
      then finish (dispatch mouse_up (path r) (record m { mouse_responder = none }))
      else (m, true)

  unfoldable pub on_mouse_up : ℕ → Manager W → Manager W × Bool
  unfolding mouse_up_for
  on_mouse_up v m = mouse_up_for m.mouse_responder v m

  mouse_move_for : Option ℕ → ℕ → Manager W → Manager W × Bool
  unfolding finish
  mouse_move_for none v m = finish (dispatch mouse_move (path v) m)
  mouse_move_for (some r) v m =
      if views.in_dom r m.app then finish (dispatch mouse_move (path r) m) else (m, true)

  unfoldable pub on_mouse_move : ℕ → Manager W → Manager W × Bool
  unfolding mouse_move_for
  on_mouse_move v m = mouse_move_for m.mouse_responder v m

  unfoldable pub on_double_click : ℕ → Manager W → Manager W × Bool
  unfolding finish
  on_double_click v m =
      finish (dispatch double_click (path (elim m.mouse_responder [ none ↦ v | some r ↦ r ])) m)

  -- The handler of `mouseup` on the window; `none` is its result where no view has the mouse.
  window_mouse_up_for : Option ℕ → Manager W → Manager W × Option Bool
  unfolding mouse_up_for
  window_mouse_up_for none m = (m, none)
  window_mouse_up_for (some r) m = let (m', b) = mouse_up_for (some r) r m in (m', some b)

  unfoldable pub on_window_mouse_up : Manager W → Manager W × Option Bool
  unfolding window_mouse_up_for
  on_window_mouse_up m = window_mouse_up_for m.mouse_responder m

-- `KEY_BINDINGS`
unfoldable pub key_bindings : ℕ → Option Command
key_bindings c =
    if c == 8
    then some delete_backward
    else if c == 9
    then some insert_tab
    else if c == 13
    then some insert_newline
    else if c == 27
    then some cancel
    else if c == 32
    then some insert_space
    else if c == 37
    then some move_left
    else if c == 38
    then some move_up
    else if c == 39
    then some move_right
    else if c == 40
    then some move_down
    else if c == 46
    then some delete_forward
    else none

-- `MODIFIED_KEY_BINDINGS`
unfoldable pub modified_key_bindings : ℕ → Option Command
modified_key_bindings c =
    if c == 8
    then some delete_forward
    else if c == 9
    then some insert_backtab
    else if c == 37
    then some move_left_and_modify_selection
    else if c == 38
    then some move_up_and_modify_selection
    else if c == 39
    then some move_right_and_modify_selection
    else if c == 40
    then some move_down_and_modify_selection
    else none

pub record Key : Type 0 where
  pub kind : KeyEvent
  pub code : ℕ
  pub shift : Bool

module _ {W : Type 0} (views : Views W) where
  unfoldable pub command_of : Key → Option Command
  unfolding key_bindings modified_key_bindings
  command_of k = if k.shift then modified_key_bindings k.code else key_bindings k.code

  interpret : ℕ → Option Command → Handler W
  unfolding call
  interpret v none m = (m, ignored)
  interpret v (some c) m = call views (views.command_handler v c) m

  unfoldable pub interpret_key_events : ℕ → Key → Handler W
  unfolding interpret command_of
  interpret_key_events v k m = interpret v (command_of k) m

  -- Only `keyDown` is interpreted as a command.
  interpret_kind : KeyEvent → ℕ → Key → Handler W
  unfolding interpret_key_events
  interpret_kind key_down v k m = interpret_key_events v k m
  interpret_kind key_press v k m = (m, ignored)

  -- A handler's answer as a truth value: the marker object is truthy.
  truthy : Answer → Bool
  truthy ignored = false
  truthy _ = true

  -- `_handleKeyEvent` of a view, where `next` is `handleKeyEvent` of its parent, or gives true where
  -- it has none. The result is true where the browser is to go on.
  pass_key_event : ℕ → Key → (Manager W → Manager W × Bool) → Manager W → Manager W × Bool
  unfolding interpret_kind
  pass_key_event v k next m =
      let (m', answer) = interpret_kind k.kind v k m in
      elim answer [ allow_default ↦ (m', true) | handled ↦ (m', false) | ignored ↦ next m' ]

  answer_key : Manager W × Answer → Manager W × Bool
  unfolding truthy
  answer_key (m, a) = (m, not (truthy a))

  -- `handleKeyEvent`, on a view and its ancestors. A handler is called on the current responder,
  -- whichever view it was found on.
  unfoldable pub handle_key_event : List ℕ → Key → Manager W → Manager W × Bool
  unfolding pass_key_event answer_key
  handle_key_event [] k m = (m, true)
  handle_key_event (v ∷ rest) k m = elim (views.key_handler v k.kind) [
    | none ↦ pass_key_event v k (handle_key_event rest k) m
    | some h ↦ answer_key (h (current m.responders) m)
  ]

  key_on : Option ℕ → Key → Manager W → Manager W × Bool
  key_on none k m = (m, true)
  key_on (some v) k m =
      if (views.info v).is_view && views.is_visible v m.app
      then handle_key_event (path views v) k m
      else (m, true)

  -- The handler of the document, and `keyDown` and `keyPress` of the event manager.
  unfoldable pub on_key : Key → Manager W → Manager W × Bool
  unfolding key_on
  on_key k m = key_on (current m.responders) k m
