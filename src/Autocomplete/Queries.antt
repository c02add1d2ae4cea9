-- ===== src/Autocomplete/Queries.antt =====
-- views/autocomplete_text_field_view.js: which queries the delegate is asked for.
use flame_js.Prelude.{
  ℕ, ◌+◌, ◌≡◌, refl, Bool, true, Option, none, some, List, [], ◌∷◌, ◌++◌, arith, if◌then◌else◌,
  Option-cases, inl, inr, cases_keep,
}
use flame_js.Autocomplete.{
  State, idle, requesting, Fields, Field, Event, do_request, did_finish, did_fetch, step, run,
}

abbrev pub is_requesting : Option State → ℕ
is_requesting (some requesting) = 1
is_requesting _ = 0

abbrev pub in_state : {Q I : Type 0} → State → Fields Q I → Field Q I
in_state s f = record { current = some s; owner = f }

-- How many of the queries the delegate has started a request for.
unfoldable pub started : {Q : Type 0} → (Q → Bool) → List Q → ℕ
started accepts [] = 0
started accepts (q ∷ qs) = (if accepts q then 1 else 0) + started accepts qs

-- The query that is queued after some events.
unfoldable pub last_query : {Q I : Type 0} → Option Q → List (Event Q I) → Option Q
last_query o [] = o
last_query o (do_request (some q) ∷ es) = last_query (some q) es
last_query o (do_request none ∷ es) = last_query o es
last_query o (did_finish ∷ es) = last_query o es
last_query o (did_fetch is ∷ es) = last_query o es

-- Events while a request is running: it does not finish.
abbrev pub Running : {Q I : Type 0} → List (Event Q I) → Type 0
Running [] = Unit
Running (did_finish ∷ es) = ⊥
Running (do_request q ∷ es) = Running es
Running (did_fetch is ∷ es) = Running es

started-append :
    {Q : Type 0} (accepts : Q → Bool) (qs : List Q) (q : Q)
    → started accepts (qs ++ q ∷ []) ≡ started accepts qs + (if accepts q then 1 else 0)
unfolding started
started-append accepts [] q = ground arith
started-append accepts (x ∷ qs) q = ground (arith, started-append accepts qs q)

module _ {Q I : Type 0} (accepts : Q → Bool) where
  -- What the end of a request leaves, by the query that is queued.
  abbrev pub AfterFinish : Option Q → Fields Q I → Field Q I → Type 0
  AfterFinish none f b = (b.current ≡ some idle) × (b.owner.asked ≡ f.asked)
  AfterFinish (some q) f b =
      (b.current ≡ (if accepts q then some requesting else some idle))
      × (b.owner.asked ≡ f.asked ++ q ∷ [])
      × (b.owner.last_queued_query ≡ none)

  -- As many requests have been started as have finished, and one more that is running.
  abbrev pub OneRunning : Field Q I → Type 0
  OneRunning b = started accepts b.owner.asked ≡ b.owner.finished + is_requesting b.current

  step-OneRunning : (b : Field Q I) (e : Event Q I) → OneRunning b → OneRunning (step accepts b e)
  unfolding step
  step-OneRunning b (do_request none) h = ground arith
  step-OneRunning b (do_request (some q)) h = ground (arith, started-append accepts b.owner.asked q)
  step-OneRunning b did_finish h = elim (Option-cases b.owner.last_queued_query) [
    | inl e ↦ ground (arith, e)
    | inr (q, e) ↦ ground (arith, e, started-append accepts b.owner.asked q)
  ]
  step-OneRunning b (did_fetch is) h = ground arith

  -- Whatever is typed and whatever the delegate answers, in a field with no request started yet: never
  -- are two requests running, as many have been started as have finished, or one more, exactly in the
  -- state `requesting`.
  pub run-OneRunning :
      (b : Field Q I) (es : List (Event Q I)) → OneRunning b → OneRunning (run accepts b es)
  unfolding run
  run-OneRunning b [] h = h
  run-OneRunning b (e ∷ es) h = run-OneRunning (step accepts b e) es (step-OneRunning b e h)

  -- Still in the state `requesting`, with nothing more asked for and a query queued.
  record Waits (f : Fields Q I) (queued : Option Q) (b : Field Q I) : Type 0 where
    current : b.current ≡ some requesting
    asked : b.owner.asked ≡ f.asked
    has_delegate : b.owner.has_delegate ≡ f.has_delegate
    queries : b.owner.last_queued_query ≡ queued

  waits :
      (es : List (Event Q I)) (f : Fields Q I)
      → Running es
      → Waits f (last_query f.last_queued_query es) (run accepts (in_state requesting f) es)
  unfolding run last_query step
  waits [] f h = record { current = refl; asked = refl; has_delegate = refl; queries = refl }
  waits (do_request none ∷ es) f h = waits es f h
  waits (do_request (some q) ∷ es) f h =
      let w = waits es (record f { last_queued_query = some q }) h in
      record {
        current = w.current;
        asked = w.asked;
        has_delegate = w.has_delegate;
        queries = w.queries;
      }
  waits (did_finish ∷ es) f h = absurd h
  waits (did_fetch [] ∷ es) f h =
      let w = waits es (record f { menu = none }) h in
      record {
        current = w.current;
        asked = w.asked;
        has_delegate = w.has_delegate;
        queries = w.queries;
      }
  waits (did_fetch (i ∷ is) ∷ es) f h =
      cases_keep (λ b. Waits f (last_query f.last_queued_query es) (run accepts b es))
        f.last_queued_query
        (λ _.
          let w = waits es (record f { menu = some (i ∷ is) }) h in
          record {
            current = w.current;
            asked = w.asked;
            has_delegate = w.has_delegate;
            queries = w.queries;
          })
        (λ _ _. waits es f h)

  finishes :
      (o : Option Q) (f : Fields Q I) (b : Field Q I)
      → f.has_delegate ≡ true
      → Waits f o b
      → AfterFinish o f (step accepts b did_finish)
  unfolding step
  finishes none f b d w = ground (arith, w)
  finishes (some q) f b d w = ground (arith, w)

  -- A request is running for a field with a delegate. Whatever is typed and fetched before it finishes,
  -- when it has: with no query queued then the field is idle and nothing more was asked for; otherwise
  -- the query queued last, and no other, was asked for, none is queued, and the field is `requesting`
  -- again exactly if the delegate accepts the query.
  pub finish_lem :
      (es : List (Event Q I)) (f : Fields Q I)
      → f.has_delegate ≡ true
      → Running es
      → let b = step accepts (run accepts (in_state requesting f) es) did_finish in
        AfterFinish (last_query f.last_queued_query es) f b
  finish_lem es f d h =
      finishes (last_query f.last_queued_query es) f (run accepts (in_state requesting f) es) d
        (waits es f h)
