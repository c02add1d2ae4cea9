-- ===== src/LazyList/Scroll.antt =====
-- views/lazy_list_view.js: which rows are shown after the list has scrolled.
use mathlib.Core.Path.{subst}
use flame_js.Prelude.{
  ℕ, zero, suc, ◌+◌, ◌-◌, ◌≤◌, ◌<◌, ◌≡◌, refl, sym, ◌∙◌, Bool, true, false, ◌&&◌, some, List, [],
  ◌∷◌, arith, if◌then◌else◌, ◌==◌, ==_iff, ltb, leb, length, get_elem?, set, Option-cases,
  Bool-cases, inl, inr,
}
use flame_js.LazyList.{
  View, LazyList, Range, in_range, Scanned, scan, view_for_row, fill_up, fill_down, fill_gaps, hide,
  render_range,
}
use flame_js.LazyList.Pool.{shown, PoolOk, view_for_row-Shows}
use flame_js.LazyList.Scan.{shown-scan, past_min_at, max_row_at, Within, scan-Within}
use flame_js.LazyList.Recycling.{scan-PoolOk}

abbrev pub between : ℕ → ℕ → ℕ → ℕ
between a b i = if leb a i && ltb i b then 1 else 0

-- The rows from a up to b are shown by one view more each.
record ShowsAll (a b : ℕ) (s after : LazyList) : Type 0 where
  more : (i : ℕ) → shown i after.views ≡ shown i s.views + between a b i
  ok : PoolOk after.views after.pool
  same_content : after.content ≡ s.content

module _ (class_of : ℕ → ℕ) where
  fill_up-ShowsAll :
      (row n : ℕ) (s : LazyList)
      → row + n ≤ length s.content
      → PoolOk s.views s.pool
      → ShowsAll row (row + n) s (fill_up class_of row n s)
  unfolding fill_up
  fill_up-ShowsAll row zero s l ok = record {
    more = λ i. ground arith;
    ok = ok;
    same_content = refl;
  }
  fill_up-ShowsAll row (suc n) s l ok =
      let one = view_for_row-Shows class_of row s (omega arith) ok in
      let rest =
        fill_up-ShowsAll (suc row) n (view_for_row class_of row s)
          (subst (λ c. suc row + n ≤ length c) (sym one.same_content) (omega arith)) one.ok in
      record {
        more = λ i. ground (arith, one.more i, rest.more i, ==_iff row i);
        ok = rest.ok;
        same_content = rest.same_content ∙ one.same_content;
      }

  fill_down-ShowsAll :
      (row n : ℕ) (s : LazyList)
      → row + n ≤ length s.content
      → PoolOk s.views s.pool
      → ShowsAll row (row + n) s (fill_down class_of row n s)
  unfolding fill_down
  fill_down-ShowsAll row zero s l ok = record {
    more = λ i. ground arith;
    ok = ok;
    same_content = refl;
  }
  fill_down-ShowsAll row (suc n) s l ok =
      let one = view_for_row-Shows class_of (row + n) s (omega arith) ok in
      let rest =
        fill_down-ShowsAll row n (view_for_row class_of (row + n) s)
          (subst (λ c. row + n ≤ length c) (sym one.same_content) (omega arith)) one.ok in
      record {
        more = λ i. ground (arith, one.more i, rest.more i, ==_iff (row + n) i);
        ok = rest.ok;
        same_content = rest.same_content ∙ one.same_content;
      }

shown-set_visible :
    (i : ℕ) (vs : List View) (p : ℕ) (b : Bool) {v : View}
    → get_elem? vs p ≡ some v
    → shown i (set vs p (record v { is_visible = b })) ≡ shown i vs
unfolding shown
shown-set_visible i [] p b e = absurd cc
shown-set_visible i (x ∷ vs) zero b e = ground arith
shown-set_visible i (x ∷ vs) (suc p) b {v} e = omega (arith, shown-set_visible i vs p b {v = v} e)

pub shown-hide : (i : ℕ) (pl : List (ℕ × ℕ)) (vs : List View) → shown i (hide pl vs) ≡ shown i vs
unfolding hide
shown-hide i [] vs = refl
shown-hide i ((c, p) ∷ rest) vs = elim (Option-cases (get_elem? vs p)) [
  | inl e ↦ rw e (shown-hide i rest vs)
  | inr (v, e) ↦ rw e (
      shown-hide i rest (set vs p (record v { is_visible = false }))
      ∙ shown-set_visible i vs p false e)
]

-- `if (min === range.end) min++`
unfoldable pub limit : Range → Scanned → ℕ
limit r s = if s.past_min == r.stop then s.past_min else s.past_min - 1

module _ (class_of : ℕ → ℕ) (r : Range) where
  -- What the two gap filling loops do, by the least and the greatest row in the range that is shown.
  pub fill_gaps-shown :
      (s : Scanned) (l : LazyList) (i : ℕ)
      → r.start < r.stop
      → r.stop ≤ length l.content
      → s.past_min ≤ r.stop
      → s.max_row < r.stop
      → PoolOk l.views l.pool
      → shown i (fill_gaps class_of r s l).views
        ≡ shown i l.views
          + between r.start (limit r s) i
          + (if s.max_row == r.start then 0 else between (s.max_row + 1) r.stop i)
  unfolding fill_gaps limit
  fill_gaps-shown s l i some_rows fits least greatest ok =
      elim (Bool-cases (s.max_row == r.start)) [
        | inl e ↦ rw e (ground (arith, top.more i))
        | inr e ↦ rw e (ground (arith, top.more i, bottom.more i))
      ]
    where
      n : ℕ
      n = limit r s - r.start

      topped : LazyList
      topped = fill_up class_of r.start n l

      top : ShowsAll r.start (r.start + n) l topped
      top = fill_up-ShowsAll class_of r.start n l (ground arith) ok

      bottom :
          ShowsAll
            (s.max_row + 1)
            (s.max_row + 1 + (r.stop - (s.max_row + 1)))
            topped
            (fill_down class_of (s.max_row + 1) (r.stop - (s.max_row + 1)) topped)
      bottom =
          fill_down-ShowsAll class_of (s.max_row + 1) (r.stop - (s.max_row + 1)) topped
            (subst (λ c. s.max_row + 1 + (r.stop - (s.max_row + 1)) ≤ length c)
              (sym top.same_content) (omega arith))
            top.ok

  -- Each row in the range, from where a first view shows one of its rows.
  render_range-shown :
      (l : LazyList) (i a b : ℕ)
      → r.start < r.stop
      → r.stop ≤ length l.content
      → PoolOk l.views l.pool
      → in_range r a ≡ true
      → 0 < shown a l.views
      → in_range r b ≡ true
      → 0 < shown b l.views
      → Within r a (b + 1) l.views
      → in_range r i ≡ true
      → shown i (render_range class_of r l).views
        ≡ shown i l.views
          + between r.start (if a + 1 == r.stop then a + 1 else a) i
          + (if b == r.start then 0 else between (b + 1) r.stop i)
  unfolding render_range limit
  render_range-shown l i a b some_rows fits ok ia sa ib sb w inside =
      shown-hide i filled.pool filled.views
      ∙ ground (
        arith,
        fill_gaps-shown s start i some_rows fits (ground (arith, least)) (ground (arith, ends)) ok',
        shown-scan class_of r i 0 l.views l.pool r.stop r.start inside,
        least,
        greatest,
        ends,
      )
    where
      s : Scanned
      s = scan class_of r 0 l.views l.pool r.stop r.start

      start : LazyList
      start = record l { views = s.scanned; pool = s.pool }

      filled : LazyList
      filled = fill_gaps class_of r s start

      ok' : PoolOk s.scanned s.pool
      ok' = scan-PoolOk class_of r l.views l.pool r.stop r.start ok

      least : s.past_min ≤ a + 1
      least = past_min_at class_of r a 0 l.views l.pool r.stop r.start ia sa

      greatest : b ≤ s.max_row
      greatest = max_row_at class_of r b 0 l.views l.pool r.stop r.start ib sb

      ends : (a + 1 ≤ s.past_min) × (s.max_row < b + 1)
      ends =
          scan-Within class_of r a (b + 1) 0 l.views l.pool r.stop r.start w (ground arith)
            (ground arith)

  -- Where recycled views are there once each and show no row, and the range is within the list: a
  -- list that shows the rows of the range from a up to b once each, not only the first row of the
  -- range and not from the last one on: it shows all rows of the range once after it has scrolled.
  pub render_range_once :
      (l : LazyList) (i a b : ℕ)
      → r.start ≤ a
      → a ≤ b
      → b < r.stop
      → r.stop ≤ length l.content
      → PoolOk l.views l.pool
      → ((k : ℕ) → in_range r k ≡ true → shown k l.views ≡ between a (b + 1) k)
      → a + 1 < r.stop
      → r.start < b
      → in_range r i ≡ true
      → shown i (render_range class_of r l).views ≡ 1
  unfolding Within
  render_range_once l i a b la ab bs fits ok each not_last not_first inside = ground (
    arith,
    render_range-shown l i a b (omega arith) fits ok (ground arith) (ground (arith, each a))
        (ground arith) (ground (arith, each b)) (λ k q s. ground (arith, each k q)) inside,
    each i inside,
  )

  -- Where recycled views are there once each and show no row, and the range is within the list: a
  -- list that shows of the range only the last row, once: that row is shown twice after it has
  -- scrolled.
  pub render_range_twice :
      (l : LazyList)
      → r.start < r.stop
      → r.stop ≤ length l.content
      → PoolOk l.views l.pool
      → ((k : ℕ) → in_range r k ≡ true → shown k l.views ≡ between (r.stop - 1) r.stop k)
      → shown (r.stop - 1) (render_range class_of r l).views ≡ 2
  unfolding Within
  render_range_twice l some_rows fits ok each = ground (
    arith,
    render_range-shown l (r.stop - 1) (r.stop - 1) (r.stop - 1) some_rows fits ok (ground arith)
        (ground (arith, each (r.stop - 1))) (ground arith) (ground (arith, each (r.stop - 1)))
        (λ k q s. ground (arith, each k q)) (ground arith),
    each (r.stop - 1),
  )

  -- Where recycled views are there once each and show no row, and the range is within the list: a
  -- list that shows of the range only the first row, where there are others: the others are not
  -- shown after it has scrolled.
  pub render_range_missing :
      (l : LazyList) (i : ℕ)
      → r.start + 1 < r.stop
      → r.stop ≤ length l.content
      → PoolOk l.views l.pool
      → ((k : ℕ) → in_range r k ≡ true → shown k l.views ≡ between r.start (r.start + 1) k)
      → r.start < i
      → i < r.stop
      → shown i (render_range class_of r l).views ≡ 0
  unfolding Within
  render_range_missing l i some_rows fits ok each above below = ground (
    arith,
    render_range-shown l i r.start r.start (omega arith) fits ok (ground arith)
        (ground (arith, each r.start)) (ground arith) (ground (arith, each r.start))
        (λ k q s. ground (arith, each k q)) (ground arith),
    each i (ground arith),
  )
