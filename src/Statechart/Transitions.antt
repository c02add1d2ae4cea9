-- ===== src/Statechart/Transitions.antt =====
-- statechart.js: what `gotoFlameState` and `invokeStateMethod` do on every branch.
use flame_js.Prelude.{◌≡◌, ◌≢◌, ◌⊎◌, some, arith}
use flame_js.Statechart.{missing, value, state, Machine, done, not_a_state, Chart, goto_flame_state}

module _ {N O : Type 0} (same : Discrete N) (c : Chart N O) where
  -- To the state that is current already, nothing is done: no hook runs.
  pub goto_flame_state-same :
      (n : N) (m : Machine N O)
      → m.current ≡ some n
      → c.resolve n ≡ state n
      → goto_flame_state same c (some n) m ≡ done m
  unfolding goto_flame_state
  goto_flame_state-same n m e r = ground arith

  -- From another state the old state's exit hook runs first, then the current state is set, and
  -- the new state's entry hook runs last.
  pub goto_flame_state-other :
      (k n : N) (m : Machine N O)
      → m.current ≡ some k
      → k ≢ n
      → c.resolve n ≡ state n
      → goto_flame_state same c (some n) m
        ≡ done (c.enter_state n (record (c.exit_state k m) { current = some n }))
  unfolding goto_flame_state
  goto_flame_state-other k n m e ne r = ground arith

  -- A name of no state is an error, once there is a current state.
  pub goto_flame_state_error :
      (k n : N) (m : Machine N O)
      → m.current ≡ some k
      → (c.resolve n ≡ missing) ⊎ (c.resolve n ≡ value)
      → goto_flame_state same c (some n) m ≡ not_a_state
  unfolding goto_flame_state
  goto_flame_state_error k n m e r = ground arith

  -- Where the entry hooks leave the current state alone, a move that succeeds ends in the named
  -- state.
  pub goto_flame_state_lands :
      (n : N) (m : Machine N O) {m' : Machine N O}
      → ((k : N) (x : Machine N O) → (c.enter_state k x).current ≡ x.current)
      → c.resolve n ≡ state n
      → goto_flame_state same c (some n) m ≡ done m'
      → m'.current ≡ some n
  unfolding goto_flame_state
  goto_flame_state_lands n m keep r h = grind arith
