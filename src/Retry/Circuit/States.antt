-- ===== src/Retry/Circuit/States.antt =====
-- What holds of a circuit between any two of its locked sections, whatever goroutines interleave.
use waffle.Base.{◌≡◌, Bool, Option, ℤ, pos, ◌<ℤ◌, arith}
use waffle.Retry.Circuit.{
  closed, half_open, CircuitConfig, Circuit, new_circuit, allow_request, track, record_result, poll,
  reset, trip,
}

module _ {E : Type 0} where
  -- The thresholds are positive, a closed circuit has not reached the one and a half-open
  -- circuit not the other.
  pub record IsValid (c : Circuit E) : Type 0 where
    pub failures_needed : pos 0 <ℤ c.cfg.failure_threshold
    pub successes_needed : pos 0 <ℤ c.cfg.success_threshold
    pub below_failures : c.state ≡ closed → pos c.failures <ℤ c.cfg.failure_threshold
    pub below_successes : c.state ≡ half_open → pos c.successes <ℤ c.cfg.success_threshold

  pub new_circuit-IsValid : (cfg : CircuitConfig E) → IsValid (new_circuit cfg)
  unfolding new_circuit
  new_circuit-IsValid cfg = ground arith

  pub allow_request-IsValid :
      (now : ℤ) (c : Circuit E) → IsValid c → IsValid (allow_request now c).0
  unfolding allow_request
  allow_request-IsValid now c v = ground arith

  pub track-IsValid : (c : Circuit E) → IsValid c → IsValid (track c).0
  unfolding track
  track-IsValid c v = ground arith

  pub record_result-IsValid :
      (now : ℤ) (err : Option E) (h : Bool) (c : Circuit E)
      → IsValid c
      → IsValid (record_result now err h c)
  unfolding record_result
  record_result-IsValid now err h c v = ground arith

  pub poll-IsValid : (now : ℤ) (c : Circuit E) → IsValid c → IsValid (poll now c).0
  unfolding poll
  poll-IsValid now c v = ground arith

  pub reset-IsValid : (c : Circuit E) → IsValid c → IsValid (reset c)
  unfolding reset
  reset-IsValid c v = ground arith

  pub trip-IsValid : (now : ℤ) (c : Circuit E) → IsValid c → IsValid (trip now c)
  unfolding trip
  trip-IsValid now c v = ground arith
