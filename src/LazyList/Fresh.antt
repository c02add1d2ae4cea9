-- ===== src/LazyList/Fresh.antt =====
-- views/lazy_list_view.js: which rows are shown where none was.
use flame_js.Prelude.{ℕ, ◌+◌, ◌-◌, ◌≤◌, ◌<◌, ◌≡◌, ◌∙◌, true, arith, length}
use flame_js.LazyList.Visible.{range_bounds}
use flame_js.LazyList.Rerender.{recycle_all-PoolOk, shown-recycle_all}
use flame_js.LazyList.{
  Geometry, rows_to_render_range, recycle_all, did_scroll, full_rerender, LazyList, Range, in_range,
  Scanned, scan, fill_gaps, render_range,
}
use flame_js.LazyList.Pool.{shown, PoolOk}
use flame_js.LazyList.Scan.{past_min_le, max_row_ge, shown-scan, Within, scan-Within}
use flame_js.LazyList.Recycling.{scan-PoolOk}
use flame_js.LazyList.Scroll.{limit, shown-hide, fill_gaps-shown}

module _ (class_of : ℕ → ℕ) (r : Range) where
  -- Where no view shows a row of the range yet.
  render_range_fresh :
      (l : LazyList) (i : ℕ)
      → r.stop ≤ length l.content
      → PoolOk l.views l.pool
      → ((k : ℕ) → in_range r k ≡ true → shown k l.views ≡ 0)
      → in_range r i ≡ true
      → shown i (render_range class_of r l).views ≡ 1
  unfolding render_range limit Within
  render_range_fresh l i fits ok each inside =
      shown-hide i filled.pool filled.views
      ∙ ground (
        arith,
        fill_gaps-shown class_of r s start i (ground arith) fits (ground (arith, upper))
            (ground (arith, ends)) ok',
        shown-scan class_of r i 0 l.views l.pool r.stop r.start inside,
        each i inside,
        ends,
        upper,
        lower,
      )
    where
      s : Scanned
      s = scan class_of r 0 l.views l.pool r.stop r.start

      start : LazyList
      start = record l { views = s.scanned; pool = s.pool }

      filled : LazyList
      filled = fill_gaps class_of r s start

      ok' : PoolOk s.scanned s.pool
      ok' = scan-PoolOk class_of r l.views l.pool r.stop r.start ok

      upper : s.past_min ≤ r.stop
      upper = past_min_le class_of r 0 l.views l.pool r.stop r.start

      lower : r.start ≤ s.max_row
      lower = max_row_ge class_of r 0 l.views l.pool r.stop r.start

      ends : (r.stop - 1 + 1 ≤ s.past_min) × (s.max_row < r.start + 1)
      ends =
          scan-Within class_of r (r.stop - 1) (r.start + 1) 0 l.views l.pool r.stop r.start
            (λ k q h. absurd (ground (arith, each k q))) (ground arith) (omega arith)

-- After a full rerender each row in the range is shown once, whatever views there were, where the
-- recycled ones are there once each and show no row.
pub full_rerender_once :
    (class_of : ℕ → ℕ) (g : Geometry) (height scroll_top : ℕ) (l : LazyList) (i : ℕ)
    → PoolOk l.views l.pool
    → in_range (rows_to_render_range g (length l.content) height scroll_top) i ≡ true
    → shown i (full_rerender class_of g height scroll_top l).views ≡ 1
unfolding full_rerender did_scroll
full_rerender_once class_of g height scroll_top l i ok inside =
    render_range_fresh class_of (rows_to_render_range g (length l.content) height scroll_top)
      (record l {
        views = (recycle_all class_of 0 l.views l.pool).0;
        pool = (recycle_all class_of 0 l.views l.pool).1;
      })
      i (range_bounds g (length l.content) height scroll_top).1
      (recycle_all-PoolOk class_of l.views l.pool ok)
      (λ k q. shown-recycle_all class_of k 0 l.views l.pool) inside
