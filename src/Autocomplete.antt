-- ===== src/Autocomplete.antt =====
-- views/autocomplete_text_field_view.js: a text field that asks its delegate for completions, one request
-- at a time.
pub mod Queries
use flame_js.Prelude.{
  ℕ, suc, ◌+◌, ◌≡◌, Bool, true, false, Option, none, some, List, [], ◌∷◌, ◌++◌, if◌then◌else◌,
}
use flame_js.Statechart.{
  Property, state, Machine, Outcome, done, no_name, not_a_state, Chart, goto_flame_state, Reply,
  invoke_state_method,
}

pub data State : Type 0 where
  idle requesting : State

pub State-discrete : Discrete State
State-discrete = hlevel

-- The view's fields: `_lastQueuedQuery`, the items of the menu where one is open, the queries that the
-- delegate was asked for in turn, and how often a request has finished. A query is a text that is not
-- empty.
pub record Fields (Q I : Type 0) : Type 0 where
  pub has_delegate : Bool
  pub last_queued_query : Option Q
  pub menu : Option (List I)
  pub asked : List Q
  pub finished : ℕ

abbrev pub Field : Type 0 → Type 0 → Type 0
Field Q I = Machine State (Fields Q I)

module _ {Q I : Type 0} where
  abbrev pub with_fields : Fields Q I → Field Q I → Field Q I
  with_fields f b = record { current = b.current; owner = f }

  -- `_closeAutocompleteMenu`
  abbrev pub close_autocomplete_menu : Field Q I → Field Q I
  close_autocomplete_menu b = with_fields (record b.owner { menu = none }) b

  -- `_showAutocompleteMenu`
  abbrev pub show_autocomplete_menu : List I → Field Q I → Field Q I
  show_autocomplete_menu options b = with_fields (record b.owner { menu = some options }) b

  leave : State → Field Q I → Field Q I
  leave n b = b

  enter_requesting : State → Field Q I → Field Q I
  enter_requesting idle b = b
  enter_requesting requesting b = close_autocomplete_menu b

  -- The move to `requesting`, which the entry of `idle` may make.
  goto_requesting : Field Q I → Field Q I
  unfolding goto_flame_state State-discrete leave enter_requesting
  goto_requesting b =
      let chart : Chart State (Fields Q I) = record {
        resolve = λ n. state n;
        exit_state = leave;
        enter_state = enter_requesting;
      } in
      elim (goto_flame_state State-discrete chart (some requesting) b) [
        | done b' ↦ b'
        | no_name ↦ b
        | not_a_state ↦ b
      ]

-- `accepts` is whether the delegate's `fetchAutocompleteResults` starts a request for a query.
module _ {Q I : Type 0} (accepts : Q → Bool) where
  -- `doAutocompleteRequest` of the state `idle`; no query is an empty one.
  unfoldable pub request : Option Q → Field Q I → Field Q I
  unfolding goto_requesting
  request none b = if b.owner.has_delegate then close_autocomplete_menu b else b
  request (some q) b =
      let asked = with_fields (record b.owner { asked = b.owner.asked ++ q ∷ [] }) b in
      if b.owner.has_delegate
      then (if accepts q then goto_requesting asked else close_autocomplete_menu asked)
      else b

  -- `enterState` of `idle`: the query that was queued last is asked for.
  enter_idle : Option Q → Field Q I → Field Q I
  unfolding request
  enter_idle none b = b
  enter_idle (some q) b =
      request (some q) (with_fields (record b.owner { last_queued_query = none }) b)

  enter_state : State → Field Q I → Field Q I
  unfolding enter_idle enter_requesting
  enter_state idle b = enter_idle b.owner.last_queued_query b
  enter_state requesting b = enter_requesting requesting b

  chart : Chart State (Fields Q I)
  chart = record { resolve = λ n. state n; exit_state = leave; enter_state = enter_state }

  unfoldable pub goto_idle : Field Q I → Field Q I
  unfolding goto_flame_state State-discrete chart leave enter_state
  goto_idle b = elim (goto_flame_state State-discrete chart (some idle) b) [
    | done b' ↦ b'
    | no_name ↦ b
    | not_a_state ↦ b
  ]

-- What reaches the field: the text field's query after a pause in typing, and the delegate's answers.
pub data Event (Q I : Type 0) : Type 0 where
  do_request : Option Q → Event Q I
  did_finish : Event Q I
  did_fetch : List I → Event Q I

module _ {Q I : Type 0} where
  -- `doAutocompleteRequest` of the state `requesting`.
  queue : Option Q → Field Q I → Field Q I
  queue none b = b
  queue (some q) b = with_fields (record b.owner { last_queued_query = some q }) b

  -- `didFetchAutocompleteResults`
  fetched : List I → Field Q I → Field Q I
  fetched [] b = close_autocomplete_menu b
  fetched (i ∷ is) b = elim b.owner.last_queued_query [
    | none ↦ show_autocomplete_menu (i ∷ is) b
    | some q ↦ b
  ]

  no_keys : Field Q I → Field Q I × Unit {0}
  no_keys b = (b, tt)

module _ {Q I : Type 0} (accepts : Q → Bool) where
  finish : Field Q I → Field Q I
  unfolding goto_idle
  finish b = goto_idle accepts (with_fields (record b.owner { finished = b.owner.finished + 1 }) b)

  methods : State → Event Q I → Option (Field Q I → Field Q I × Unit {0})
  unfolding request queue fetched finish
  methods idle (do_request q) = some (λ b. (request accepts q b, tt))
  methods requesting (do_request q) = some (λ b. (queue q b, tt))
  methods requesting did_finish = some (λ b. (finish b, tt))
  methods requesting (did_fetch options) = some (λ b. (fetched options b, tt))
  methods _ _ = none

  unfoldable pub step : Field Q I → Event Q I → Field Q I
  unfolding invoke_state_method methods no_keys
  step b e = (invoke_state_method methods (λ _. false) no_keys e b).0

  unfoldable pub run : Field Q I → List (Event Q I) → Field Q I
  run b [] = b
  run b (e ∷ es) = run (step b e) es
