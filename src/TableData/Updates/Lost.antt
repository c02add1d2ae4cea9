-- ===== src/TableData/Updates/Lost.antt =====
-- views/table_data_view.js: what a change of the dirty cells that comes between batches loses.
use mathlib.Core.Path.{subst, ap₂}
use flame_js.Prelude.{
  ℕ, suc, ◌+◌, ◌≡◌, ◌≤◌, ◌<◌, refl, sym, ap, ◌∙◌, true, false, Option, some, List, [], ◌∷◌, ◌++◌,
  arith, ==_iff, length, take, drop, length-drop,
}
use flame_js.Table.Headers.{Index}
use flame_js.TableData.Updates.{
  Job, Screen, Setup, update_cells, is_outdated, later, batch_update, cells_did_change, next_job,
  fresh, run_loops,
}
use flame_js.TableData.Updates.Batches.{
  update_cells-append, update_cells-aside, run_loops-idle, batch_update-now, current_now, counted,
  take_short, drop_short, clear,
}

module _ {C : Type 0} (u : Setup C) (m : ℕ) (sized : u.batch_size ≡ some (suc m)) where
  did_change-now :
      (xs : List Index) (s : Screen C)
      → 0 < length xs
      → cells_did_change u xs s
        ≡ later u
            (some (s.update_counter + 1))
            (drop (suc m) xs)
            (update_cells u (take (suc m) xs) (counted u s))
  unfolding cells_did_change counted
  did_change-now [] s some_cells = absurd (omega arith)
  did_change-now (i ∷ is) s some_cells =
      batch_update-now u m sized (some (s.update_counter + 1)) (i ∷ is) (counted u s)
        (current_now u (s.update_counter + 1))

  outdated_job :
      (fuel : ℕ) (job : Job) (s : Screen C)
      → is_outdated u job.counter s.update_counter ≡ true
      → run_loops u (suc fuel) (record s { jobs = job ∷ [] }) ≡ clear u (fresh u s)
  unfolding run_loops next_job batch_update
  outdated_job fuel job s old =
      let s' = clear u (fresh u s) in
      let dropped : batch_update u job.counter job.left s' ≡ s' = ground (arith, old) in
      ap (run_loops u fuel) dropped ∙ run_loops-idle u fuel s' refl

  -- A change of few cells, while a job of an earlier one waits.
  job_lost :
      (fuel : ℕ) (left second : List Index) (t : Screen C)
      → 0 < length second
      → length second ≤ suc m
      → let job : Job = record { counter = some t.update_counter; left = left } in
        (run_loops u (suc fuel) (cells_did_change u second (record t { jobs = job ∷ [] }))).painted
        ≡ (update_cells u second (fresh u t)).painted
  unfolding later counted is_outdated
  job_lost fuel left second t some_cells few =
      let job : Job = record { counter = some t.update_counter; left = left } in
      let k = t.update_counter + 1 in
      ap (λ (x : Screen C). (run_loops u (suc fuel) x).painted)
        (did_change-now second (record t { jobs = job ∷ [] }) some_cells
          ∙ ap₂
              (λ rest xs.
                later u (some k) rest
                  (update_cells u xs (record (fresh u t) { update_counter = k; jobs = job ∷ [] })))
              (drop_short (suc m) second few) (take_short (suc m) second few)
          ∙ update_cells-aside u second (fresh u t) k (job ∷ []))
      ∙ ap (λ (x : Screen C). x.painted)
          (outdated_job fuel job (record (update_cells u second (fresh u t)) { update_counter = k })
            (ground (arith, ==_iff t.update_counter (t.update_counter + 1))))

  later-some :
      (counter : Option ℕ) (rest : List Index) (s : Screen C)
      → 0 < length rest
      → s.thrown ≡ false
      → later u counter rest s
        ≡ record s { jobs = s.jobs ++ record { counter = counter; left = rest } ∷ [] }
  unfolding later
  later-some counter [] s h q = absurd (omega arith)
  later-some counter (i ∷ is) s h q = ground (arith, q)

  lost :
      (first second : List Index) (s : Screen C) (fuel : ℕ)
      → suc m < length first
      → 0 < length second
      → length second ≤ suc m
      → (update_cells u (take (suc m) first) (fresh u s)).thrown ≡ false
      → (run_loops u
          (suc fuel)
          (cells_did_change u second (cells_did_change u first (clear u s)))).painted
        ≡ (update_cells u (take (suc m) first ++ second) (fresh u s)).painted
  unfolding counted
  lost first second s fuel more some_cells few quiet =
      let k = s.update_counter + 1 in
      let done = update_cells u (take (suc m) first) (fresh u s) in
      let t : Screen C = record done { update_counter = k; jobs = [] } in
      ap (λ (x : Screen C). (run_loops u (suc fuel) (cells_did_change u second x)).painted)
        (did_change-now first (clear u s) (omega arith)
          ∙ ap (later u (some k) (drop (suc m) first))
              (update_cells-aside u (take (suc m) first) (fresh u s) k [])
          ∙ later-some (some k) (drop (suc m) first) t
              (omega (arith, more, length-drop (suc m) first)) quiet)
      ∙ job_lost fuel (drop (suc m) first) second t some_cells few
      ∙ ap (λ (x : Screen C). x.painted)
          (ap (λ b. update_cells u second (record t { thrown = b })) (sym quiet)
            ∙ update_cells-aside u second done k []
            ∙ ap (λ (x : Screen C). record x { update_counter = k; jobs = [] })
                (sym (update_cells-append u (take (suc m) first) second (fresh u s))))

  -- Where batches have at least one cell and no job waits: the dirty cells change, more of them than go
  -- in a batch, and change again before the next run loop, no more than go in a batch, and no callback
  -- throws in the first batch. Whichever run loops follow, the cells that the first change left to a later
  -- batch are never painted.
  pub lost_update :
      (first second : List Index) (s : Screen C) (fuel : ℕ)
      → s.jobs ≡ []
      → suc m < length first
      → 0 < length second
      → length second ≤ suc m
      → (update_cells u (take (suc m) first) (fresh u s)).thrown ≡ false
      → (run_loops u (suc fuel) (cells_did_change u second (cells_did_change u first s))).painted
        ≡ (update_cells u (take (suc m) first ++ second) (fresh u s)).painted
  lost_update first second s fuel idle more some_cells few quiet =
      subst
        (λ (x : Screen C).
          (run_loops u (suc fuel) (cells_did_change u second (cells_did_change u first x))).painted
          ≡ (update_cells u (take (suc m) first ++ second) (fresh u s)).painted)
        (ap (λ js. record s { jobs = js }) (sym idle))
        (lost first second s fuel more some_cells few quiet)
