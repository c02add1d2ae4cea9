-- ===== src/Button/Clicks.antt =====
-- views/button_view.js: when a button fires its action.
use flame_js.Prelude.{
  ℕ, ◌+◌, ◌≡◌, refl, Bool, true, false, not, Option, none, some, List, [], ◌∷◌, arith, get_elem?,
  if◌then◌else◌,
}
use flame_js.Button.{
  State, idle, hover, mouse_down_inside, Timer, up, up_and_leave, Button, Message, send,
  mouse_enter, mouse_leave, mouse_down, mouse_up, touch_start, touch_end, simulate_click, Event,
  message, insert_space, timer, set_disabled, step, run, expire, expire_at,
}

-- One message fires the action once if it releases a press, and never otherwise.
abbrev pub releases : Option State → Message → Bool
releases (some mouse_down_inside) mouse_up = true
releases (some mouse_down_inside) touch_end = true
releases _ _ = false

-- A message fires the action exactly when it is `mouseUp` or `touchEnd` in the state
-- `mouseDownInside`, and then exactly once; with it `isSelected` is toggled if the button is sticky,
-- and is left alone otherwise.
pub fired-send :
    (msg : Message) (b : Button)
    → ((send msg b).0.owner.fired
        ≡ (if releases b.current msg then b.owner.fired + 1 else b.owner.fired))
      × ((send msg b).0.owner.is_selected ≡ (
          if releases b.current msg
          then (if b.owner.is_sticky then not b.owner.is_selected else b.owner.is_selected)
          else b.owner.is_selected))
unfolding send
fired-send msg b = (ground arith, ground arith)

-- The mouse alone.
abbrev pub is_mouse : Event → Bool
is_mouse (message mouse_enter) = true
is_mouse (message mouse_leave) = true
is_mouse (message mouse_down) = true
is_mouse (message mouse_up) = true
is_mouse insert_space = true
is_mouse (timer i) = true
is_mouse _ = false

abbrev pub AllMouse : List Event → Type 0
AllMouse [] = Unit
AllMouse (e ∷ es) = (is_mouse e ≡ true) × AllMouse es

-- Not pressed, or on the way to it.
abbrev pub is_up : Option State → Bool
is_up (some idle) = true
is_up (some hover) = true
is_up _ = false

pub record Dead (n : ℕ) (b : Button) : Type 0 where
  pub disabled : b.owner.is_disabled ≡ true
  pub not_pressed : is_up b.current ≡ true
  pub unfired : b.owner.fired ≡ n

-- Every message but `touchStart`.
abbrev not_touch : Message → Bool
not_touch touch_start = false
not_touch _ = true

send-Dead :
    (n : ℕ) (msg : Message) (b : Button) → not_touch msg ≡ true → Dead n b → Dead n (send msg b).0
unfolding send
send-Dead n msg b t h = ground arith

expire-Dead : (n : ℕ) (t : Timer) (b : Button) → Dead n b → Dead n (expire t b)
unfolding expire
expire-Dead n up b h = send-Dead n mouse_up b refl h
expire-Dead n up_and_leave b h = send-Dead n mouse_leave _ refl (send-Dead n mouse_up b refl h)

expire_at-Dead :
    (n : ℕ) (o : Option Timer) (i : ℕ) (b : Button) → Dead n b → Dead n (expire_at o i b)
unfolding expire_at
expire_at-Dead n none i b h = h
expire_at-Dead n (some t) i b h =
    expire-Dead n t _
      (record { disabled = h.disabled; not_pressed = h.not_pressed; unfired = h.unfired })

step-Dead : (n : ℕ) (e : Event) (b : Button) → is_mouse e ≡ true → Dead n b → Dead n (step b e)
unfolding step
step-Dead n (message mouse_enter) b m h = send-Dead n mouse_enter b refl h
step-Dead n (message mouse_leave) b m h = send-Dead n mouse_leave b refl h
step-Dead n (message mouse_down) b m h = send-Dead n mouse_down b refl h
step-Dead n (message mouse_up) b m h = send-Dead n mouse_up b refl h
step-Dead n insert_space b m h = send-Dead n simulate_click b refl h
step-Dead n (timer i) b m h = expire_at-Dead n (get_elem? b.owner.timers i) i b h
step-Dead n (message touch_start) b m h = cc
step-Dead n (message touch_end) b m h = cc
step-Dead n (message simulate_click) b m h = cc
step-Dead n (set_disabled v) b m h = cc

-- A disabled button that is idle or hovered never fires, whatever the mouse and the space bar do
-- and whichever timers run, and it stays idle or hovered.
pub run-Dead : (n : ℕ) (es : List Event) (b : Button) → AllMouse es → Dead n b → Dead n (run b es)
unfolding run
run-Dead n [] b a h = h
run-Dead n (e ∷ es) b (m, a) h = run-Dead n es (step b e) a (step-Dead n e b m h)

-- A touch fires the action of an idle button, disabled or not, and leaves it idle.
pub touch_fires :
    (b : Button)
    → b.current ≡ some idle
    → ((run b (message touch_start ∷ message touch_end ∷ [])).owner.fired ≡ b.owner.fired + 1)
      × ((run b (message touch_start ∷ message touch_end ∷ [])).current ≡ some idle)
unfolding run step
touch_fires b h = (ground arith, ground arith)

-- The space bar on an idle, enabled button with no timer waiting clicks it: when the timer has run,
-- the action was fired once, the button is idle again, and no timer is left.
pub insert_space_clicks :
    (b : Button)
    → b.current ≡ some idle
    → b.owner.is_disabled ≡ false
    → b.owner.timers ≡ []
    → ((run b (insert_space ∷ timer 0 ∷ [])).owner.fired ≡ b.owner.fired + 1)
      × ((run b (insert_space ∷ timer 0 ∷ [])).current ≡ some idle)
      × ((run b (insert_space ∷ timer 0 ∷ [])).owner.timers ≡ [])
unfolding run step
insert_space_clicks b h d t = (ground arith, ground arith, ground arith)
