-- ===== src/Retry/Circuit.antt =====
-- pantry/retry/circuit.go. A method that locks `c.mu` is one function from the circuit to the
-- new circuit and its result; the time that it reads is an argument. `Do` is made of three such
-- sections, between which other goroutines may run.
pub mod States
pub mod Sequence
pub mod Steps
pub mod Limit
mod Examples
use waffle.Base.{
  ℕ, suc, ◌+◌, ◌≡◌, Bool, true, false, ◌&&◌, Option, none, some, List, [], ◌∷◌, ℤ, pos, ◌+ℤ◌, ◌-ℤ◌,
  leb_ℤ, if◌then◌else◌,
}

pub data CircuitState : Type 0 where
  closed open_ half_open : CircuitState

abbrev pub same_state : CircuitState → CircuitState → Bool
same_state closed closed = true
same_state open_ open_ = true
same_state half_open half_open = true
same_state _ _ = false

-- `E` is the type of non-nil errors; a nil function is `none`. Only whether `OnStateChange` is
-- set enters the model.
pub record CircuitConfig (E : Type 0) : Type 0 where
  pub failure_threshold : ℤ
  pub success_threshold : ℤ
  pub timeout : ℤ
  pub max_half_open_requests : ℤ
  pub is_failure : Option (E → Bool)
  pub on_state_change : Bool

-- `changes` lists the calls of `OnStateChange`, the last one first.
pub record Circuit (E : Type 0) : Type 0 where
  pub cfg : CircuitConfig E
  pub state : CircuitState
  pub failures : ℕ
  pub successes : ℕ
  pub last_failure : ℤ
  pub half_open_requests : ℤ
  pub changes : List (CircuitState × CircuitState)

-- ErrCircuitOpen, or the error of the protected function.
pub data DoError (E : Type 0) : Type 0 where
  circuit_open : DoError E
  failed : E → DoError E

module _ {E : Type 0} where
  unfoldable pub new_circuit : CircuitConfig E → Circuit E
  new_circuit cfg = record {
    cfg = record cfg {
      failure_threshold =
          if leb_ℤ cfg.failure_threshold (pos 0) then pos 5 else cfg.failure_threshold;
      success_threshold =
          if leb_ℤ cfg.success_threshold (pos 0) then pos 2 else cfg.success_threshold;
      timeout = if leb_ℤ cfg.timeout (pos 0) then pos 30_000_000_000 else cfg.timeout;
      max_half_open_requests =
          if leb_ℤ cfg.max_half_open_requests (pos 0) then pos 1 else cfg.max_half_open_requests;
    };
    state = closed;
    failures = 0;
    successes = 0;
    last_failure = pos 0;
    half_open_requests = pos 0;
    changes = [];
  }

  -- The `switch` of `transitionTo`, which resets counters.
  unfoldable pub enter : CircuitState → Circuit E → Circuit E
  enter closed c = record c { failures = 0; successes = 0; half_open_requests = pos 0 }
  enter open_ c = record c { successes = 0; half_open_requests = pos 0 }
  enter half_open c = record c { successes = 0 }

  unfoldable pub transition_to : CircuitState → Circuit E → Circuit E
  unfolding enter
  transition_to to c =
      if same_state c.state to
      then c
      else (let c' = enter to (record c { state = to }) in
          record c' {
            changes = if c.cfg.on_state_change then (c.state, to) ∷ c.changes else c.changes;
          })

  -- `time.Since(c.lastFailure) >= c.cfg.Timeout`
  abbrev pub is_due : ℤ → Circuit E → Bool
  is_due now c = leb_ℤ c.cfg.timeout (now -ℤ c.last_failure)

  -- The cases of `allowRequest`; `true` is a nil error and `false` is ErrCircuitOpen.
  unfoldable pub allow_in : CircuitState → ℤ → Circuit E → Circuit E × Bool
  unfolding transition_to
  allow_in closed now c = (c, true)
  allow_in open_ now c = if is_due now c then (transition_to half_open c, true) else (c, false)
  allow_in half_open now c =
      if leb_ℤ c.cfg.max_half_open_requests c.half_open_requests then (c, false) else (c, true)

  unfoldable pub allow_request : ℤ → Circuit E → Circuit E × Bool
  unfolding allow_in
  allow_request now c = allow_in c.state now c

  -- The second section of `Do`: was the circuit half-open, and if so one more request runs.
  unfoldable pub track : Circuit E → Circuit E × Bool
  track c =
      if same_state c.state half_open
      then (record c { half_open_requests = c.half_open_requests +ℤ pos 1 }, true)
      else (c, false)

  -- `isFailure`: a non-nil error that `cfg.IsFailure`, where set, counts.
  abbrev pub counts : Option (E → Bool) → Option E → Bool
  counts f none = false
  counts none (some err) = true
  counts (some f) (some err) = f err

  -- The `switch` of `recordResult`; in the open state it does nothing.
  unfoldable pub record_in : CircuitState → ℤ → Bool → Circuit E → Circuit E
  unfolding transition_to
  record_in closed now is_failure c =
      if is_failure
      then (let c' = record c { failures = c.failures + 1; last_failure = now } in
          if leb_ℤ c.cfg.failure_threshold (pos c'.failures) then transition_to open_ c' else c')
      else record c { failures = 0 }
  record_in open_ now is_failure c = c
  record_in half_open now is_failure c =
      if is_failure
      then transition_to open_ (record c { last_failure = now })
      else (let c' = record c { successes = c.successes + 1 } in
          if leb_ℤ c.cfg.success_threshold (pos c'.successes) then transition_to closed c' else c')

  unfoldable pub record_result : ℤ → Option E → Bool → Circuit E → Circuit E
  unfolding record_in
  record_result now err was_half_open c =
      let c' =
        if was_half_open
        then record c { half_open_requests = c.half_open_requests -ℤ pos 1 }
        else c in
      record_in c.state now (counts c.cfg.is_failure err) c'

  -- `Do` with no other goroutine at work: `err` is what `fn` returns, `now` the time of
  -- `allowRequest` and `later` that of `recordResult`.
  unfoldable pub do_request : ℤ → ℤ → Option E → Circuit E → Circuit E × Option (DoError E)
  unfolding allow_request track record_result
  do_request now later err c =
      let (c', allowed) = allow_request now c in
      let (c'', is_half_open) = track c' in
      if allowed
      then (
        record_result later err is_half_open c'',
        elim err [ none ↦ none | some e ↦ some (failed e) ],
      )
      else (c', some circuit_open)

  -- `State`
  unfoldable pub poll : ℤ → Circuit E → Circuit E × CircuitState
  unfolding transition_to
  poll now c =
      let c' = if same_state c.state open_ && is_due now c then transition_to half_open c else c in
      (c', c'.state)

  unfoldable pub reset : Circuit E → Circuit E
  unfolding transition_to
  reset c = transition_to closed c

  unfoldable pub trip : ℤ → Circuit E → Circuit E
  unfolding transition_to
  trip now c = transition_to open_ (record c { last_failure = now })
