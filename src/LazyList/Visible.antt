-- ===== src/LazyList/Visible.antt =====
-- views/lazy_list_view.js: that the range of rows to render has the rows in view.
use native.Mathlib.Nat.{le-div_iff_mul-le, lt-div-mul-add, add-mul, mul-le-mul_right}
use flame_js.Prelude.{ℕ, ◌+◌, ◌*◌, ◌/◌, ◌≤◌, ◌<◌, ◌≡◌, true, arith}
use flame_js.LazyList.{
  Geometry, normalized_scroll_top, desired_rows, rows_to_render_range, in_range,
}

rows_below : (h r norm : ℕ) → 0 < h → norm < (r + 1) * h → norm / h ≤ r
rows_below h r norm pos l = grind (arith, le-div_iff_mul-le {x = r + 1} {y = norm} pos)

rows_above : (h r norm height : ℕ) → 0 < h → r * h < norm + height → r ≤ norm / h + height / h + 1
rows_above h r norm height pos l = grind (
  arith,
  lt-div-mul-add {a = norm} pos,
  lt-div-mul-add {a = height} pos,
  add-mul (norm / h + height / h) 2 h,
  add-mul (norm / h) (height / h) h,
  λ (q : norm / h + height / h + 2 ≤ r). mul-le-mul_right h q,
)

-- With some buffer and items of some height, in a list that has its element, the rows that are in
-- view at least in part are all in the range.
pub visible_rows :
    (g : Geometry) (rows height scroll_top r : ℕ)
    → g.has_element ≡ true
    → 0 < g.item_height
    → 0 < g.buffer
    → r < rows
    → r * g.item_height < normalized_scroll_top g scroll_top + height
    → normalized_scroll_top g scroll_top < (r + 1) * g.item_height
    → in_range (rows_to_render_range g rows height scroll_top) r ≡ true
unfolding rows_to_render_range
visible_rows g rows height scroll_top r e h b l above below = ground (
  arith,
  rows_below g.item_height r (normalized_scroll_top g scroll_top) h below,
  rows_above g.item_height r (normalized_scroll_top g scroll_top) height h above,
)

-- The range is within the list, and has at most as many rows as are wanted, and one.
pub range_bounds :
    (g : Geometry) (rows height scroll_top : ℕ)
    → let r = rows_to_render_range g rows height scroll_top in
      (r.start ≤ r.stop) × (r.stop ≤ rows) × (r.stop ≤ r.start + desired_rows g height + 1)
unfolding rows_to_render_range
range_bounds g rows height scroll_top = (ground arith, ground arith, ground arith)
