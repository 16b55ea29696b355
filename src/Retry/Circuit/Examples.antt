-- ===== src/Retry/Circuit/Examples.antt =====
-- A circuit that opens after two failures and closes after two successes; its timeout is 10.
use waffle.Base.{
  ◌+◌, ℕ, ◌≡◌, refl, true, none, some, List, [], ◌∷◌, pos, ◌+ℤ◌, ◌-ℤ◌, ◌<ℤ◌, ◌≤ℤ◌, length,
}
use mathlib.Core.Option
use waffle.Retry.Circuit.{
  closed, open_, CircuitConfig, circuit_open, failed, new_circuit, do_request, trip, allow_request,
}
use waffle.Retry.Circuit.States.{IsValid}
use waffle.Retry.Circuit.Sequence.{Call, call, run, run-refuses, run-opens}
use waffle.Retry.Circuit.Steps.{System, Move, Reach, start_of, reachable-IsValid}

program : Unit {0}
unfolding run do_request new_circuit ◌+ℤ◌ ◌-ℤ◌ trip start_of allow_request
program = tt

abbrev cfg : CircuitConfig ℕ
cfg = record {
  failure_threshold = pos 2;
  success_threshold = pos 2;
  timeout = pos 10;
  max_half_open_requests = pos 1;
  is_failure = none;
  on_state_change = true;
}

abbrev failing : ℕ → Call ℕ
failing t = record { begin = pos t; end = pos t; result = some 7 }

abbrev passing : ℕ → Call ℕ
passing t = record { begin = pos t; end = pos t; result = none }

abbrev two_failures : List (Call ℕ)
two_failures = failing 1 ∷ failing 2 ∷ []

opened : (run two_failures (new_circuit cfg)).state ≡ open_
unfolding program
opened = refl

refused : (call (passing 5) (run two_failures (new_circuit cfg))).1 ≡ some circuit_open
unfolding program
refused = refl

recovered :
    (run (failing 1 ∷ failing 2 ∷ passing 20 ∷ passing 21 ∷ []) (new_circuit cfg)).state ≡ closed
unfolding program
recovered = refl

run-refuses_example :
    let c = run two_failures (new_circuit cfg) in
    (c.state ≡ open_
      → pos 5 -ℤ c.last_failure <ℤ c.cfg.timeout
      → call (passing 5) c ≡ (c, some circuit_open))
    × ((c.state ≡ open_ → c.cfg.timeout ≤ℤ pos 5 -ℤ c.last_failure)
        → (call (passing 5) c).1 ≡ Option.map failed (passing 5).result)
run-refuses_example = run-refuses cfg two_failures (passing 5)

run-opens_example :
    let c = run (passing 0 ∷ []) (new_circuit cfg) in
    (pos (c.failures + length two_failures) <ℤ c.cfg.failure_threshold
      → (run two_failures c).state ≡ closed)
    × (c.cfg.failure_threshold ≡ pos (c.failures + length two_failures)
        → (run two_failures c).state ≡ open_)
unfolding program
run-opens_example = run-opens cfg (passing 0 ∷ []) two_failures refl (refl, (refl, tt))

abbrev tripped : System ℕ
tripped = record (start_of cfg) { circuit = trip (pos 3) (start_of cfg).circuit }

reachable-IsValid_example : IsValid tripped.circuit
reachable-IsValid_example =
    reachable-IsValid cfg {t = tripped}
      (Reach.next Reach.here (Move.trip_call (start_of cfg) (pos 3)))
