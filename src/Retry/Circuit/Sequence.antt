-- ===== src/Retry/Circuit/Sequence.antt =====
-- Calls of `Do` one after another: when the circuit opens, refuses, and closes again.
use waffle.Base.{
  ◌+◌, ◌≡◌, refl, true, false, Option, some, List, [], ◌∷◌, ℤ, pos, ◌+ℤ◌, ◌-ℤ◌, ◌<ℤ◌, ◌≤ℤ◌, arith,
  length, All,
}
use mathlib.Core.Option
use waffle.Retry.Circuit.{
  CircuitConfig, new_circuit, closed, open_, half_open, Circuit, DoError, circuit_open, failed,
  do_request, counts,
}
use waffle.Retry.Circuit.States.{IsValid}

-- One call of `Do`: the time it begins, the time it ends, and what `fn` returns.
pub record Call (E : Type 0) : Type 0 where
  pub begin : ℤ
  pub end : ℤ
  pub result : Option E

module _ {E : Type 0} where
  -- One call, and its result.
  abbrev pub call : Call E → Circuit E → Circuit E × Option (DoError E)
  call k c = do_request k.begin k.end k.result c

  unfoldable pub run : List (Call E) → Circuit E → Circuit E
  run [] c = c
  run (k ∷ ks) c = run ks (call k c).0

  -- Between calls the circuit is valid and counts no half-open request.
  pub record IsIdle (c : Circuit E) : Type 0 where
    pub valid : IsValid c
    pub room : pos 0 <ℤ c.cfg.max_half_open_requests
    pub none_running : c.half_open_requests ≡ pos 0

  new_circuit-IsIdle : (cfg : CircuitConfig E) → IsIdle (new_circuit cfg)
  unfolding new_circuit
  new_circuit-IsIdle cfg = ground arith

  call-IsIdle : (k : Call E) (c : Circuit E) → IsIdle c → IsIdle (call k c).0
  unfolding do_request ◌+ℤ◌ ◌-ℤ◌
  call-IsIdle k c v = ground arith

  run-IsIdle : (ks : List (Call E)) (c : Circuit E) → IsIdle c → IsIdle (run ks c)
  unfolding run
  run-IsIdle [] c v = v
  run-IsIdle (k ∷ ks) c v = run-IsIdle ks (call k c).0 (call-IsIdle k c v)

  refuses :
      (k : Call E) (c : Circuit E)
      → IsIdle c
      → (c.state ≡ open_
          → k.begin -ℤ c.last_failure <ℤ c.cfg.timeout
          → call k c ≡ (c, some circuit_open))
        × ((c.state ≡ open_ → c.cfg.timeout ≤ℤ k.begin -ℤ c.last_failure)
            → (call k c).1 ≡ Option.map failed k.result)
  unfolding do_request
  refuses k c v = ground arith

  -- After any calls one after another: while the circuit is open and its timeout has not elapsed,
  -- a call is refused and the circuit stays as it is; any other call is let through and returns
  -- what `fn` returns.
  pub run-refuses :
      (cfg : CircuitConfig E) (ks : List (Call E)) (k : Call E)
      → let c = run ks (new_circuit cfg) in
        (c.state ≡ open_
          → k.begin -ℤ c.last_failure <ℤ c.cfg.timeout
          → call k c ≡ (c, some circuit_open))
        × ((c.state ≡ open_ → c.cfg.timeout ≤ℤ k.begin -ℤ c.last_failure)
            → (call k c).1 ≡ Option.map failed k.result)
  run-refuses cfg ks k =
      refuses k (run ks (new_circuit cfg))
        (run-IsIdle ks (new_circuit cfg) (new_circuit-IsIdle cfg))

  module _ (cfg : CircuitConfig E) where
    -- `err` counts as a failure, or does not.
    abbrev pub IsFailing : Call E → Type 0
    IsFailing k = counts cfg.is_failure k.result ≡ true

    abbrev pub IsPassing : Call E → Type 0
    IsPassing k = counts cfg.is_failure k.result ≡ false

    one_failure :
        (k : Call E) (c : Circuit E)
        → c.cfg ≡ cfg
        → c.state ≡ closed
        → IsFailing k
        → let c' = (call k c).0 in
          (c'.cfg ≡ cfg)
          × (c'.failures ≡ c.failures + 1)
          × (pos (c.failures + 1) <ℤ cfg.failure_threshold → c'.state ≡ closed)
          × (cfg.failure_threshold ≤ℤ pos (c.failures + 1) → c'.state ≡ open_)
    unfolding do_request
    one_failure k c e s f = ground arith

    one_success :
        (k : Call E) (c : Circuit E)
        → c.cfg ≡ cfg
        → c.state ≡ half_open
        → IsIdle c
        → IsPassing k
        → let c' = (call k c).0 in
          (c'.cfg ≡ cfg)
          × (pos (c.successes + 1) <ℤ cfg.success_threshold
              → (c'.state ≡ half_open) × (c'.successes ≡ c.successes + 1))
          × (cfg.success_threshold ≤ℤ pos (c.successes + 1) → c'.state ≡ closed)
    unfolding do_request ◌+ℤ◌ ◌-ℤ◌
    one_success k c e s v f = ground arith

    run-failures :
        (ks : List (Call E)) (c : Circuit E)
        → IsIdle c
        → c.cfg ≡ cfg
        → c.state ≡ closed
        → All IsFailing ks
        → (pos (c.failures + length ks) <ℤ cfg.failure_threshold → (run ks c).state ≡ closed)
          × (pos (c.failures + length ks) ≤ℤ cfg.failure_threshold
              → cfg.failure_threshold ≤ℤ pos (c.failures + length ks)
              → (run ks c).state ≡ open_)
    unfolding run
    run-failures [] c v e s f = ground arith
    run-failures (k ∷ []) c v e s f = let one = one_failure k c e s f.0 in ground arith
    run-failures (k ∷ l ∷ ks) c v e s f =
        let c' = (call k c).0 in
        let (e', n', stays, _) = one_failure k c e s f.0 in
        let rest =
          λ (s' : c'.state ≡ closed). run-failures (l ∷ ks) c' (call-IsIdle k c v) e' s' f.1 in
        (
          λ h. (rest (stays (omega arith))).0 (omega arith),
          λ h h'. (rest (stays (omega arith))).1 (omega arith) (omega arith),
        )

    run-successes :
        (ks : List (Call E)) (c : Circuit E)
        → IsIdle c
        → c.cfg ≡ cfg
        → c.state ≡ half_open
        → All IsPassing ks
        → (pos (c.successes + length ks) <ℤ cfg.success_threshold → (run ks c).state ≡ half_open)
          × (pos (c.successes + length ks) ≤ℤ cfg.success_threshold
              → cfg.success_threshold ≤ℤ pos (c.successes + length ks)
              → (run ks c).state ≡ closed)
    unfolding run
    run-successes [] c v e s f = ground arith
    run-successes (k ∷ []) c v e s f = let one = one_success k c e s v f.0 in ground arith
    run-successes (k ∷ l ∷ ks) c v e s f =
        let c' = (call k c).0 in
        let (e', stays, _) = one_success k c e s v f.0 in
        let rest =
          λ (s' : c'.state ≡ half_open). run-successes (l ∷ ks) c' (call-IsIdle k c v) e' s' f.1 in
        (
          λ h. let (s', n') = stays (omega arith) in (rest s').0 (omega arith),
          λ h h'. let (s', n') = stays (omega arith) in (rest s').1 (omega arith) (omega arith),
        )

  module _ (cfg : CircuitConfig E) (before ks : List (Call E)) where
    -- After any calls one after another that leave the circuit closed, failing calls in a row
    -- leave it closed while the failures stay below the threshold, and open it with the one that
    -- reaches the threshold.
    pub run-opens :
        let c = run before (new_circuit cfg) in
        c.state ≡ closed
        → All (IsFailing c.cfg) ks
        → (pos (c.failures + length ks) <ℤ c.cfg.failure_threshold → (run ks c).state ≡ closed)
          × (c.cfg.failure_threshold ≡ pos (c.failures + length ks) → (run ks c).state ≡ open_)
    run-opens s f =
        let c = run before (new_circuit cfg) in
        let idle = run-IsIdle before (new_circuit cfg) (new_circuit-IsIdle cfg) in
        let both = run-failures c.cfg ks c idle refl s f in
        (both.0, λ e. both.1 (rw e (omega arith)) (rw e (omega arith)))

    -- After any calls one after another that leave the circuit half-open, passing calls in a row
    -- leave it half-open while the successes stay below the threshold, and close it with the one
    -- that reaches the threshold.
    pub run-closes :
        let c = run before (new_circuit cfg) in
        c.state ≡ half_open
        → All (IsPassing c.cfg) ks
        → (pos (c.successes + length ks) <ℤ c.cfg.success_threshold → (run ks c).state ≡ half_open)
          × (c.cfg.success_threshold ≡ pos (c.successes + length ks) → (run ks c).state ≡ closed)
    run-closes s f =
        let c = run before (new_circuit cfg) in
        let idle = run-IsIdle before (new_circuit cfg) (new_circuit-IsIdle cfg) in
        let both = run-successes c.cfg ks c idle refl s f in
        (both.0, λ e. both.1 (rw e (omega arith)) (rw e (omega arith)))
