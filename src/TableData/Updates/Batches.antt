-- ===== src/TableData/Updates/Batches.antt =====
-- views/table_data_view.js: that batches come to the same as one update.
use mathlib.Core.Path.{subst, ap₂}
use flame_js.Prelude.{
  ℕ, zero, suc, ◌+◌, ◌≡◌, ◌≤◌, refl, sym, ap, ◌∙◌, true, false, Bool-cases, inl, inr, Option, none,
  some, List, [], ◌∷◌, ◌++◌, arith, ==_iff, length, take, drop, take-append-drop, length-drop,
}
use flame_js.Table.Headers.{Index}
use flame_js.TableData.Updates.{
  Job, Screen, Setup, update_cell, update_cells, is_outdated, later, batch_update, cells_did_change,
  next_job, run_loops,
}

module _ {C : Type 0} (u : Setup C) where
  pub update_cells-append :
      (is js : List Index) (s : Screen C)
      → update_cells u (is ++ js) s ≡ update_cells u js (update_cells u is s)
  unfolding update_cells
  update_cells-append [] js s = refl
  update_cells-append (i ∷ is) js s = update_cells-append is js (update_cell u i s)

  -- Updating cells does not read the counter and the jobs, and leaves them alone.
  update_cell-aside :
      (i : Index) (s : Screen C) (k : ℕ) (jobs : List Job)
      → update_cell u i (record s { update_counter = k; jobs = jobs })
        ≡ record (update_cell u i s) { update_counter = k; jobs = jobs }
  unfolding update_cell
  update_cell-aside i s k jobs = ground arith

  pub update_cells-aside :
      (is : List Index) (s : Screen C) (k : ℕ) (jobs : List Job)
      → update_cells u is (record s { update_counter = k; jobs = jobs })
        ≡ record (update_cells u is s) { update_counter = k; jobs = jobs }
  unfolding update_cells
  update_cells-aside [] s k jobs = refl
  update_cells-aside (i ∷ is) s k jobs =
      ap (update_cells u is) (update_cell-aside i s k jobs)
      ∙ update_cells-aside is (update_cell u i s) k jobs

  next_job-idle : (js : List Job) (s : Screen C) → js ≡ [] → next_job u js s ≡ s
  unfolding next_job
  next_job-idle [] s h = refl
  next_job-idle (j ∷ js) s h = absurd cc

  pub run_loops-idle : (fuel : ℕ) (s : Screen C) → s.jobs ≡ [] → run_loops u fuel s ≡ s
  unfolding run_loops
  run_loops-idle zero s h = refl
  run_loops-idle (suc fuel) s h =
      ap (run_loops u fuel) (next_job-idle s.jobs s h) ∙ run_loops-idle fuel s h

  update_cell-thrown : (i : Index) (s : Screen C) → s.thrown ≡ true → update_cell u i s ≡ s
  unfolding update_cell
  update_cell-thrown i s h = ground (arith, h)

  -- After an error nothing more is updated.
  update_cells-thrown : (is : List Index) (s : Screen C) → s.thrown ≡ true → update_cells u is s ≡ s
  unfolding update_cells
  update_cells-thrown [] s h = refl
  update_cells-thrown (i ∷ is) s h =
      ap (update_cells u is) (update_cell-thrown i s h) ∙ update_cells-thrown is s h

  abbrev pub clear : Screen C → Screen C
  clear s = record s { jobs = [] }

  -- The screen after some cells are updated, with the counter as it was.
  abbrev painting : List Index → Screen C → Screen C
  painting is s = record (update_cells u is s) { update_counter = s.update_counter }

  update_cells-clear :
      (is : List Index) (s : Screen C) → update_cells u is (clear s) ≡ clear (painting is s)
  update_cells-clear is s = update_cells-aside is s s.update_counter []

module _ {C : Type 0} (u : Setup C) (m : ℕ) (sized : u.batch_size ≡ some (suc m)) where
  pub batch_update-now :
      (counter : Option ℕ) (left : List Index) (s : Screen C)
      → is_outdated u counter s.update_counter ≡ false
      → batch_update u counter left s
        ≡ later u counter (drop (suc m) left) (update_cells u (take (suc m) left) s)
  unfolding batch_update
  batch_update-now counter left s current = ground (arith, sized, current)

  -- The rest of the cells after a batch.
  rest_updated :
      (left : List Index) (s : Screen C)
      → update_cells u (drop (suc m) left) (clear u (painting u (take (suc m) left) s))
        ≡ update_cells u left (clear u s)
  rest_updated left s =
      ap (update_cells u (drop (suc m) left)) (sym (update_cells-clear u (take (suc m) left) s))
      ∙ sym (update_cells-append u (take (suc m) left) (drop (suc m) left) (clear u s))
      ∙ ap (λ is. update_cells u is (clear u s)) (take-append-drop (suc m) left)

  later_off :
      (counter : Option ℕ) (i : Index) (is : List Index) (t : Screen C)
      → t.thrown ≡ true
      → later u counter (i ∷ is) (clear u t) ≡ clear u t
  unfolding later
  later_off counter i is t e = ground (arith, e)

  later_on :
      (counter : Option ℕ) (i : Index) (is : List Index) (t : Screen C)
      → t.thrown ≡ false
      → later u counter (i ∷ is) (clear u t)
        ≡ record t { jobs = record { counter = counter; left = i ∷ is } ∷ [] }
  unfolding later
  later_on counter i is t e = ground (arith, e)

  after_batch :
      (fuel : ℕ) (counter : Option ℕ) (rest : List Index) (t : Screen C)
      → (length rest ≤ fuel
          → run_loops u fuel (batch_update u counter rest (clear u t))
            ≡ update_cells u rest (clear u t))
      → length rest ≤ fuel
      → run_loops u (suc fuel) (later u counter rest (clear u t)) ≡ update_cells u rest (clear u t)
  unfolding later run_loops next_job update_cells
  after_batch fuel counter [] t again enough = run_loops-idle u (suc fuel) (clear u t) refl
  after_batch fuel counter (i ∷ is) t again enough = elim (Bool-cases t.thrown) [
    | inl e ↦
        ap (run_loops u (suc fuel)) (later_off counter i is t e)
        ∙ run_loops-idle u (suc fuel) (clear u t) refl
        ∙ sym (update_cells-thrown u (i ∷ is) (clear u t) e)
    | inr e ↦
        ap (run_loops u (suc fuel)) (later_on counter i is t e)
        ∙ ap
            (λ b.
              run_loops u fuel
                (batch_update u counter (i ∷ is) (record (clear u t) { thrown = b })))
            (sym e)
        ∙ again enough
  ]

  drained_none :
      (counter : Option ℕ) (s : Screen C)
      → is_outdated u counter s.update_counter ≡ false
      → run_loops u 0 (batch_update u counter [] (clear u s)) ≡ update_cells u [] (clear u s)
  unfolding run_loops later update_cells
  drained_none counter s current = batch_update-now counter [] (clear u s) current

  drained :
      (fuel : ℕ) (counter : Option ℕ) (left : List Index) (s : Screen C)
      → is_outdated u counter s.update_counter ≡ false
      → length left ≤ fuel
      → run_loops u fuel (batch_update u counter left (clear u s)) ≡ update_cells u left (clear u s)
  drained zero counter [] s current enough = drained_none counter s current
  drained zero counter (i ∷ is) s current enough = absurd (omega arith)
  drained (suc fuel) counter left s current enough =
      ap (run_loops u (suc fuel)) (
        batch_update-now counter left (clear u s) current
        ∙ ap (later u counter (drop (suc m) left)) (update_cells-clear u (take (suc m) left) s))
      ∙ after_batch fuel counter (drop (suc m) left) (painting u (take (suc m) left) s)
          (drained fuel counter (drop (suc m) left) (painting u (take (suc m) left) s) current)
          (omega (arith, enough, length-drop (suc m) left))
      ∙ rest_updated left s

pub take_short : {A : Type 0} (n : ℕ) (xs : List A) → length xs ≤ n → take n xs ≡ xs
take_short zero [] h = refl
take_short zero (x ∷ xs) h = absurd (omega arith)
take_short (suc n) [] h = refl
take_short (suc n) (x ∷ xs) h = ap (◌∷◌ x) (take_short n xs (omega arith))

pub drop_short : {A : Type 0} (n : ℕ) (xs : List A) → length xs ≤ n → drop n xs ≡ []
drop_short zero [] h = refl
drop_short zero (x ∷ xs) h = absurd (omega arith)
drop_short (suc n) [] h = refl
drop_short (suc n) (x ∷ xs) h = drop_short n xs (omega arith)

-- The view with `batchUpdates` turned off.
abbrev pub at_once : {C : Type 0} → Setup C → Setup C
at_once u = record u { batch_size = none }

module _ {C : Type 0} (u : Setup C) where
  update_cells-at_once :
      (is : List Index) (s : Screen C) → update_cells (at_once u) is s ≡ update_cells u is s
  unfolding update_cells update_cell
  update_cells-at_once [] s = refl
  update_cells-at_once (i ∷ is) s = update_cells-at_once is (update_cell u i s)

  batch_update-at_once :
      (counter : Option ℕ) (left : List Index) (s : Screen C)
      → is_outdated u counter s.update_counter ≡ false
      → batch_update (at_once u) counter left s ≡ update_cells u left s
  unfolding batch_update is_outdated
  batch_update-at_once counter left s current = rw current (
      ap₂ (λ rest first. later (at_once u) counter rest (update_cells (at_once u) first s))
        (drop_short (length left) left (omega arith)) (take_short (length left) left (omega arith))
      ∙ nothing_later counter left s)
    where
      nothing_later :
          (counter : Option ℕ) (left : List Index) (s : Screen C)
          → later (at_once u) counter [] (update_cells (at_once u) left s) ≡ update_cells u left s
      nothing_later counter left s = unfold later in update_cells-at_once left s

  pub current_now : (k : ℕ) → is_outdated u (some k) k ≡ false
  unfolding is_outdated
  current_now k = ground (arith, ==_iff k k)

  unfoldable pub counted : Screen C → Screen C
  counted s = record s { update_counter = s.update_counter + 1; thrown = false }

  cells_did_change-once :
      (dirty : List Index) (s : Screen C)
      → cells_did_change (at_once u) dirty s ≡ update_cells u dirty (counted s)
  unfolding cells_did_change counted
  cells_did_change-once [] s = refl
  cells_did_change-once (i ∷ is) s =
      batch_update-at_once (some (s.update_counter + 1)) (i ∷ is) (counted s)
        (current_now (s.update_counter + 1))

module _ {C : Type 0} (u : Setup C) (m : ℕ) (sized : u.batch_size ≡ some (suc m)) where
  batches :
      (dirty : List Index) (s : Screen C) (fuel : ℕ)
      → length dirty ≤ fuel
      → run_loops u fuel (cells_did_change u dirty (clear u s))
        ≡ update_cells u dirty (clear u (counted u s))
  unfolding cells_did_change counted update_cells
  batches [] s fuel enough = run_loops-idle u fuel (clear u (counted u s)) refl
  batches (i ∷ is) s fuel enough =
      drained u m sized fuel (some (s.update_counter + 1)) (i ∷ is) (counted u s)
        (current_now u (s.update_counter + 1)) enough

  -- Where batches have at least one cell, no job waits and no other change comes before they are done: as
  -- many run loops after a change of the dirty cells as there are such cells, the screen is what it is
  -- right away where `batchUpdates` is off: the same cells, painted in the same order, up to the same error
  -- where the callback throws one, and no job waits.
  pub run_loops-cells_did_change :
      (dirty : List Index) (s : Screen C) (fuel : ℕ)
      → s.jobs ≡ []
      → length dirty ≤ fuel
      → run_loops u fuel (cells_did_change u dirty s) ≡ cells_did_change (at_once u) dirty s
  unfolding counted
  run_loops-cells_did_change dirty s fuel idle enough =
      subst
        (λ (t : Screen C).
          run_loops u fuel (cells_did_change u dirty t) ≡ cells_did_change (at_once u) dirty t)
        (ap (λ js. record s { jobs = js }) (sym idle))
        (batches dirty s fuel enough ∙ sym (cells_did_change-once u dirty (clear u s)))
