-- ===== src/MenuScroll.antt =====
-- views/menu_scroll_view.js: a view port with arrows at its ends, which scroll while the pointer is on
-- them.
pub mod Ends
pub mod Arriving
use flame_js.Prelude.{
  ℕ, suc, ◌+◌, ◌-◌, Bool, true, false, Option, none, some, List, [], ◌∷◌, ◌&&◌, ◌==◌, ltb, leb,
  if◌then◌else◌,
}

-- `scrollDirection`: -1, 0, 1
pub data Direction : Type 0 where
  upward still downward : Direction

-- `scrollPosition`
pub data Position : Type 0 where
  at_top in_middle at_bottom : Position

-- The view, its arrows, the view port and the timers that wait. `timer` is the last one that was started;
-- timers are numbered as they are started.
pub record ScrollView : Type 0 where
  pub need_scrolling : Bool
  pub scroll_direction : Direction
  pub scroll_position : Position
  pub scroll_size : ℕ
  pub up_shown : Bool
  pub down_shown : Bool
  pub scroll_top : ℕ
  pub view_port_height : ℕ
  pub list_height : ℕ
  pub timer : Option ℕ
  pub waiting : List ℕ
  pub next_timer : ℕ

abbrev pub not_at_top : Position → Bool
not_at_top at_top = false
not_at_top _ = true

abbrev pub not_at_bottom : Position → Bool
not_at_bottom at_bottom = false
not_at_bottom _ = true

-- `scrollPositionDidChange`
abbrev pub scroll_position_did_change : ScrollView → ScrollView
scroll_position_did_change s = record s {
  up_shown = s.need_scrolling && not_at_top s.scroll_position;
  down_shown = s.need_scrolling && not_at_bottom s.scroll_position;
}

-- `Ember.run.cancel`
unfoldable pub cancel : ℕ → List ℕ → List ℕ
cancel t [] = []
cancel t (x ∷ xs) = if x == t then cancel t xs else x ∷ cancel t xs

abbrev pub cancel_timer : Option ℕ → List ℕ → List ℕ
cancel_timer none ts = ts
cancel_timer (some t) ts = cancel t ts

-- `stopScrolling`
abbrev pub stop_scrolling : ScrollView → ScrollView
stop_scrolling s = record s { scroll_direction = still; waiting = cancel_timer s.timer s.waiting }

-- `Ember.run.later(this, this.scroll, scrollTime)`
abbrev pub later : ScrollView → ScrollView
later s = record s {
  timer = some s.next_timer;
  waiting = s.next_timer ∷ s.waiting;
  next_timer = suc s.next_timer;
}

-- The ends of `scroll`, where it reaches an end of the list or goes on.
abbrev pub reach : Position → ℕ → ScrollView → ScrollView
reach p top s =
    scroll_position_did_change
      (record (stop_scrolling (record s { scroll_top = top })) { scroll_position = p })

abbrev pub go_on : ℕ → ScrollView → ScrollView
go_on top s =
    scroll_position_did_change
      (record (later (record s { scroll_top = top })) { scroll_position = in_middle })

-- `scroll`. Down to the end of the list, `oldTop + delta` is what the list is higher than the view port; the
-- browser takes a negative position for 0.
unfoldable pub scroll : ScrollView → ScrollView
scroll s = elim s.scroll_direction [
  | upward ↦
      if ltb s.scroll_top s.scroll_size
      then reach at_top 0 s
      else go_on (s.scroll_top - s.scroll_size) s
  | still ↦ go_on s.scroll_top s
  | downward ↦
      if leb s.list_height (s.scroll_top + s.view_port_height + s.scroll_size)
      then reach at_bottom (s.list_height - s.view_port_height) s
      else go_on (s.scroll_top + s.scroll_size) s
]

abbrev pub start_scrolling : Direction → ScrollView → ScrollView
start_scrolling d s = scroll (record s { scroll_direction = d })

-- What reaches the view: the pointer on its arrows, a timer, `needScrolling` set by the menu, and the end of
-- its element.
pub data Event : Type 0 where
  enter_up enter_down leave_up leave_down : Event
  timeout : ℕ → Event
  set_need_scrolling : Bool → Event
  will_destroy_element : Event

-- A timer that waits runs `scroll`.
unfoldable pub run_timer : ℕ → List ℕ → ScrollView → ScrollView
unfolding scroll cancel
run_timer t [] s = s
run_timer t (x ∷ xs) s =
    if x == t then scroll (record s { waiting = cancel t s.waiting }) else run_timer t xs s

unfoldable pub step : ScrollView → Event → ScrollView
unfolding scroll run_timer
step s enter_up = if s.up_shown then start_scrolling upward s else s
step s enter_down = if s.down_shown then start_scrolling downward s else s
step s leave_up = if s.up_shown then stop_scrolling s else s
step s leave_down = if s.down_shown then stop_scrolling s else s
step s (timeout t) = run_timer t s.waiting s
step s (set_need_scrolling b) = scroll_position_did_change (record s { need_scrolling = b })
step s will_destroy_element = stop_scrolling s

unfoldable pub run : ScrollView → List Event → ScrollView
run s [] = s
run s (e ∷ es) = run (step s e) es
