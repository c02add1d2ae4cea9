-- ===== src/MenuScroll/Arriving.antt =====
-- views/menu_scroll_view.js: scrolling down comes to the end of the list.
use mathlib.Core.Path.{subst}
use flame_js.Prelude.{
  ℕ, zero, suc, ◌+◌, ◌-◌, ◌≤◌, ◌<◌, ◌≡◌, refl, sym, ap, Bool, true, false, Option, none, some, List,
  [], ◌∷◌, arith, leb, ==_iff, if_keeps,
}
use flame_js.MenuScroll.{
  downward, at_bottom, ScrollView, cancel, cancel_timer, scroll, run_timer, enter_down, timeout,
  step, reach, go_on,
}
use flame_js.MenuScroll.Ends.{scroll-downward}

-- n timers run, of those that wait the last one started each time.
unfoldable pub run_timers : ℕ → ScrollView → ScrollView
unfolding step
run_timers zero s = s
run_timers (suc n) s = elim s.waiting [ [] ↦ s | t ∷ ts ↦ run_timers n (step s (timeout t)) ]

-- The view port is at a place, which is the end of the list, and no timer waits.
pub record Arrived (bottom : ℕ) (s : ScrollView) : Type 0 where
  pub position : s.scroll_position ≡ at_bottom
  pub top : s.scroll_top ≡ bottom
  pub waiting : s.waiting ≡ []

run_timers-done : (n : ℕ) (s : ScrollView) → s.waiting ≡ [] → run_timers n s ≡ s
unfolding run_timers
run_timers-done zero s w = refl
run_timers-done (suc n) s w = ground (arith, w)

cancel_none : (o : Option ℕ) (ts : List ℕ) → ts ≡ [] → cancel_timer o ts ≡ []
unfolding cancel
cancel_none none ts e = e
cancel_none (some t) ts e = ap (cancel t) e

-- The timer that was started runs, where no other one waits.
next_scroll :
    (top : ℕ) (s : ScrollView)
    → s.waiting ≡ []
    → step (go_on top s) (timeout s.next_timer) ≡ scroll (record (go_on top s) { waiting = [] })
unfolding step run_timer cancel
next_scroll top s w = ground (arith, w, ==_iff s.next_timer s.next_timer)

arrives :
    (n : ℕ) (s : ScrollView)
    → s.waiting ≡ []
    → let bottom = s.list_height - s.view_port_height in
      Arrived bottom (run_timers n (reach at_bottom bottom s))
arrives n s w =
    subst (Arrived (s.list_height - s.view_port_height))
      (sym (run_timers-done n _ (cancel_none s.timer s.waiting w)))
      (record { position = refl; top = refl; waiting = cancel_none s.timer s.waiting w })

abbrev ends : ScrollView → Bool
ends s = leb s.list_height (s.scroll_top + s.view_port_height + s.scroll_size)

-- Scrolling down arrives if it does where it goes on.
descends_if :
    (n : ℕ) (s : ScrollView)
    → s.scroll_direction ≡ downward
    → s.waiting ≡ []
    → (let bottom = s.list_height - s.view_port_height in
        ends s ≡ false → Arrived bottom (run_timers n (go_on (s.scroll_top + s.scroll_size) s)))
    → Arrived (s.list_height - s.view_port_height) (run_timers n (scroll s))
descends_if n s e w on =
    let P = λ (x : ScrollView). Arrived (s.list_height - s.view_port_height) (run_timers n x) in
    subst P (sym (scroll-downward s e)) (if_keeps P (ends s) (λ _. arrives n s w) on)

descends :
    (n : ℕ) (s : ScrollView)
    → s.scroll_direction ≡ downward
    → s.waiting ≡ []
    → 0 < s.scroll_size
    → s.list_height ≤ n + s.scroll_top + s.view_port_height
    → Arrived (s.list_height - s.view_port_height) (run_timers n (scroll s))
unfolding run_timers
descends zero s e w p le = descends_if zero s e w (λ t. absurd (ground (arith, t, le)))
descends (suc k) s e w p le =
    let top = s.scroll_top + s.scroll_size in
    let bottom = s.list_height - s.view_port_height in
    let rest = descends k (record (go_on top s) { waiting = [] }) e refl p (omega (arith, le, p)) in
    descends_if (suc k) s e w
      (λ _. subst (λ x. Arrived bottom (run_timers k x)) (sym (next_scroll top s w)) rest)

-- The pointer enters the lower arrow, which is shown, where no timer waits and each scroll moves: when as
-- many timers have run as pixels of the list are below the view port, or all there are, the view port is
-- at the end of the list, its position says so, and no timer waits.
pub enter_down-Arrived :
    (s : ScrollView)
    → s.down_shown ≡ true
    → s.waiting ≡ []
    → 0 < s.scroll_size
    → Arrived
        (s.list_height - s.view_port_height)
        (run_timers (s.list_height - s.view_port_height - s.scroll_top) (step s enter_down))
unfolding step
enter_down-Arrived s d w p =
    let left = s.list_height - s.view_port_height - s.scroll_top in
    if_keeps (λ x. Arrived (s.list_height - s.view_port_height) (run_timers left x)) s.down_shown
      (λ _. descends left (record s { scroll_direction = downward }) refl w p (omega arith))
      (λ q. absurd (ground (arith, d, q)))
