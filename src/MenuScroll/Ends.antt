-- ===== src/MenuScroll/Ends.antt =====
-- views/menu_scroll_view.js: the ends of the list, and that scrolling reaches them.
use flame_js.Prelude.{◌+◌, ◌-◌, ◌≤◌, ◌≡◌, arith, if◌then◌else◌, leb, ◌&&◌}
use flame_js.MenuScroll.{
  downward, Position, at_top, in_middle, at_bottom, ScrollView, not_at_top, not_at_bottom, scroll,
  reach, go_on,
}

-- What the position says of the place in the list.
abbrev pub Place : Position → ScrollView → Type 0
Place at_top s = s.scroll_top ≡ 0
Place in_middle s = Unit
Place at_bottom s = s.scroll_top ≡ s.list_height - s.view_port_height

-- No more than the list is scrolled out of the view port, the position is true, and an arrow is shown
-- unless the position is its end.
pub record EndsOk (s : ScrollView) : Type 0 where
  pub bound : s.scroll_top ≤ s.list_height - s.view_port_height
  pub place : Place s.scroll_position s
  pub up : s.up_shown ≡ s.need_scrolling && not_at_top s.scroll_position
  pub down : s.down_shown ≡ s.need_scrolling && not_at_bottom s.scroll_position

pub scroll-downward :
    (s : ScrollView)
    → s.scroll_direction ≡ downward
    → scroll s ≡ (
        if leb s.list_height (s.scroll_top + s.view_port_height + s.scroll_size)
        then reach at_bottom (s.list_height - s.view_port_height) s
        else go_on (s.scroll_top + s.scroll_size) s)
unfolding scroll
scroll-downward s e = ground (arith, e)
