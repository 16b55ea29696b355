-- ===== src/Retry/Circuit/Steps.antt =====
-- The sections of circuit.go interleaved by any number of goroutines: which states follow which,
-- and how many requests run in the half-open state.
use mathlib.Core.Logic.{◌≢◌}
use waffle.Base.{ℕ, suc, ◌≡◌, refl, Bool, true, false, Option, List, [], ◌∷◌, ℤ, arith}
use waffle.Retry.Circuit.{
  CircuitState, closed, open_, half_open, CircuitConfig, Circuit, new_circuit, allow_request, track,
  record_result, poll, reset, trip,
}
use waffle.Retry.Circuit.States.{
  IsValid, new_circuit-IsValid, allow_request-IsValid, track-IsValid, record_result-IsValid,
  poll-IsValid, reset-IsValid, trip-IsValid,
}

-- The state diagram without `Reset` and `Trip`.
pub data Edge : CircuitState → CircuitState → Type 0 where
  stay : {s : CircuitState} → Edge s s
  break : Edge closed open_
  probe : Edge open_ half_open
  reopen : Edge half_open open_
  recover : Edge half_open closed

ruleset edges = (stay, break, probe, reopen, recover)

-- The recorded changes lead from the closed state to `s`, each to another state.
abbrev pub LeadsTo : CircuitState → List (CircuitState × CircuitState) → Type 0
LeadsTo s [] = s ≡ closed
LeadsTo s ((from, to) ∷ r) = (to ≡ s) × (from ≢ to) × LeadsTo from r

-- A circuit with the goroutines inside `Do`: those that `allowRequest` has let pass, and those
-- that run `fn`, counted as half-open requests or not.
pub record System (E : Type 0) : Type 0 where
  pub circuit : Circuit E
  pub admitted : ℕ
  pub running_half_open : ℕ
  pub running : ℕ

module _ {E : Type 0} where
  pub data Step : System E → System E → Type 0 where
    refuse :
        (s : System E) (now : ℤ)
        → (allow_request now s.circuit).1 ≡ false
        → Step s (record s { circuit = (allow_request now s.circuit).0 })
    admit :
        (s : System E) (now : ℤ)
        → (allow_request now s.circuit).1 ≡ true
        → Step s (record s { circuit = (allow_request now s.circuit).0; admitted = suc s.admitted })
    start_half_open :
        (s : System E) {n : ℕ}
        → s.admitted ≡ suc n
        → (track s.circuit).1 ≡ true
        → Step s (record s {
          circuit = (track s.circuit).0;
          admitted = n;
          running_half_open = suc s.running_half_open;
        })
    start :
        (s : System E) {n : ℕ}
        → s.admitted ≡ suc n
        → (track s.circuit).1 ≡ false
        → Step s (record s { circuit = (track s.circuit).0; admitted = n; running = suc s.running })
    finish_half_open :
        (s : System E) (now : ℤ) (err : Option E) {n : ℕ}
        → s.running_half_open ≡ suc n
        → Step s
            (record s { circuit = record_result now err true s.circuit; running_half_open = n })
    finish :
        (s : System E) (now : ℤ) (err : Option E) {n : ℕ}
        → s.running ≡ suc n
        → Step s (record s { circuit = record_result now err false s.circuit; running = n })
    ask : (s : System E) (now : ℤ) → Step s (record s { circuit = (poll now s.circuit).0 })

  -- A step of a caller of `Do` or `State`, or a call of `Reset` or `Trip`.
  pub data Move : System E → System E → Type 0 where
    request : {s t : System E} → Step s t → Move s t
    reset_call : (s : System E) → Move s (record s { circuit = reset s.circuit })
    trip_call : (s : System E) (now : ℤ) → Move s (record s { circuit = trip now s.circuit })

  unfoldable pub start_of : CircuitConfig E → System E
  start_of cfg = record {
    circuit = new_circuit cfg;
    admitted = 0;
    running_half_open = 0;
    running = 0;
  }

  pub data Reach (s : System E) : System E → Type 0 where
    here : Reach s s
    next : {t u : System E} → Reach s t → Move t u → Reach s u

  Step-IsValid : {s t : System E} → Step s t → IsValid s.circuit → IsValid t.circuit
  Step-IsValid (refuse s now h) v = allow_request-IsValid now s.circuit v
  Step-IsValid (admit s now h) v = allow_request-IsValid now s.circuit v
  Step-IsValid (start_half_open s e h) v = track-IsValid s.circuit v
  Step-IsValid (start s e h) v = track-IsValid s.circuit v
  Step-IsValid (finish_half_open s now err e) v = record_result-IsValid now err true s.circuit v
  Step-IsValid (finish s now err e) v = record_result-IsValid now err false s.circuit v
  Step-IsValid (ask s now) v = poll-IsValid now s.circuit v

  Move-IsValid : {s t : System E} → Move s t → IsValid s.circuit → IsValid t.circuit
  Move-IsValid (request st) v = Step-IsValid st v
  Move-IsValid (reset_call s) v = reset-IsValid s.circuit v
  Move-IsValid (trip_call s now) v = trip-IsValid now s.circuit v

  Reach-IsValid : {s t : System E} → Reach s t → IsValid s.circuit → IsValid t.circuit
  Reach-IsValid here v = v
  Reach-IsValid (next r m) v = Move-IsValid m (Reach-IsValid r v)

  -- At every moment, however goroutines interleave and whoever calls `Reset` and `Trip`, the
  -- circuit is well formed.
  pub reachable-IsValid :
      (cfg : CircuitConfig E) {t : System E} → Reach (start_of cfg) t → IsValid t.circuit
  unfolding start_of
  reachable-IsValid cfg r = Reach-IsValid r (new_circuit-IsValid cfg)

  -- Each section keeps to the diagram.
  module _ (c : Circuit E) where
    allow_request-Edge : (now : ℤ) → Edge c.state (allow_request now c).0.state
    unfolding allow_request
    allow_request-Edge now = grind (arith, edges)

    track-Edge : Edge c.state (track c).0.state
    unfolding track
    track-Edge = grind (arith, edges)

    record_result-Edge :
        (now : ℤ) (err : Option E) (h : Bool) → Edge c.state (record_result now err h c).state
    unfolding record_result
    record_result-Edge now err h = grind (arith, edges)

    poll-Edge : (now : ℤ) → Edge c.state (poll now c).0.state
    unfolding poll
    poll-Edge now = grind (arith, edges)

  -- Whatever section a goroutine runs, the state stays or goes along an edge of the diagram; only
  -- `Reset` and `Trip` do otherwise.
  pub Step-Edge : {s t : System E} → Step s t → Edge s.circuit.state t.circuit.state
  Step-Edge (refuse s now h) = allow_request-Edge s.circuit now
  Step-Edge (admit s now h) = allow_request-Edge s.circuit now
  Step-Edge (start_half_open s e h) = track-Edge s.circuit
  Step-Edge (start s e h) = track-Edge s.circuit
  Step-Edge (finish_half_open s now err e) = record_result-Edge s.circuit now err true
  Step-Edge (finish s now err e) = record_result-Edge s.circuit now err false
  Step-Edge (ask s now) = poll-Edge s.circuit now

  -- `OnStateChange` is set, and its calls so far lead to the present state.
  abbrev pub IsLogged : Circuit E → Type 0
  IsLogged c = (c.cfg.on_state_change ≡ true) × LeadsTo c.state c.changes

  module _ (c : Circuit E) where
    allow_request-IsLogged : (now : ℤ) → IsLogged c → IsLogged (allow_request now c).0
    unfolding allow_request
    allow_request-IsLogged now h = ground arith

    track-IsLogged : IsLogged c → IsLogged (track c).0
    unfolding track
    track-IsLogged h = ground arith

    record_result-IsLogged :
        (now : ℤ) (err : Option E) (w : Bool) → IsLogged c → IsLogged (record_result now err w c)
    unfolding record_result
    record_result-IsLogged now err w h = ground arith

    poll-IsLogged : (now : ℤ) → IsLogged c → IsLogged (poll now c).0
    unfolding poll
    poll-IsLogged now h = ground arith

    reset-IsLogged : IsLogged c → IsLogged (reset c)
    unfolding reset
    reset-IsLogged h = ground arith

    trip-IsLogged : (now : ℤ) → IsLogged c → IsLogged (trip now c)
    unfolding trip
    trip-IsLogged now h = ground arith

  Move-IsLogged : {s t : System E} → Move s t → IsLogged s.circuit → IsLogged t.circuit
  Move-IsLogged (request (refuse s now _)) h = allow_request-IsLogged s.circuit now h
  Move-IsLogged (request (admit s now _)) h = allow_request-IsLogged s.circuit now h
  Move-IsLogged (request (start_half_open s _ _)) h = track-IsLogged s.circuit h
  Move-IsLogged (request (start s _ _)) h = track-IsLogged s.circuit h
  Move-IsLogged (request (finish_half_open s now err _)) h =
      record_result-IsLogged s.circuit now err true h
  Move-IsLogged (request (finish s now err _)) h = record_result-IsLogged s.circuit now err false h
  Move-IsLogged (request (ask s now)) h = poll-IsLogged s.circuit now h
  Move-IsLogged (reset_call s) h = reset-IsLogged s.circuit h
  Move-IsLogged (trip_call s now) h = trip-IsLogged s.circuit now h

  Reach-IsLogged : {s t : System E} → Reach s t → IsLogged s.circuit → IsLogged t.circuit
  Reach-IsLogged here h = h
  Reach-IsLogged (next r m) h = Move-IsLogged m (Reach-IsLogged r h)

  -- Where `OnStateChange` is set, its calls are at every moment a chain of changes, each to
  -- another state, from the closed state to the present one, however goroutines interleave and
  -- whoever calls `Reset` and `Trip`.
  pub reachable-LeadsTo :
      (cfg : CircuitConfig E) {t : System E}
      → cfg.on_state_change ≡ true
      → Reach (start_of cfg) t
      → LeadsTo t.circuit.state t.circuit.changes
  unfolding start_of new_circuit
  reachable-LeadsTo cfg set r = (Reach-IsLogged r (set, refl)).1
