-- ===== src/Cache/Examples.antt =====
-- A cache with a cleanup every 60 units of time.
use waffle.Base.{
  ◌≡◌, refl, false, none, List, [], ◌∷◌, ℤ, pos, ◌+ℤ◌, comparable_string, lookup, insert, delete_if,
  arith,
}
use waffle.Cache.{
  ok, err, not_found, Memory, blocks, new_memory_with_config, get, set, delete, close, take_tick,
  remove_expired, size, get_multi,
}
use waffle.Cache.Spec.{Op, get_op, set_op, tick, sweep, close_op, get_multi_op, run, step, spec_run}
use waffle.Cache.Refinement.{new-refines}

program : Unit {0}
unfolding new_memory_with_config get set delete close take_tick remove_expired size delete_if
    get_multi lookup insert ◌+ℤ◌ run step
program = tt

abbrev empty : Memory
empty = new_memory_with_config (pos 60)

stored : get (pos 15) "a" (set (pos 5) "a" (1 ∷ []) (pos 10) empty).0 ≡ ok (1 ∷ [])
unfolding program
stored = refl

expired : get (pos 16) "a" (set (pos 5) "a" (1 ∷ []) (pos 10) empty).0 ≡ err not_found
unfolding program
expired = refl

stuck_close : (close false (new_memory_with_config (pos 0))).1 ≡ blocks
unfolding program
stuck_close = refl

-- `Close` between a tick and its removal.
deadlocked : (close false (take_tick empty)).1 ≡ blocks
unfolding program
deadlocked = refl

swept : size (remove_expired (pos 16) (take_tick (set (pos 5) "a" (1 ∷ []) (pos 10) empty).0)) ≡ 0
unfolding program
swept = refl

abbrev ops : List (ℤ × Op)
ops =
    (pos 1, set_op "a" (1 ∷ []) (pos 10))
    ∷ (pos 9, get_op "a")
    ∷ (pos 60, tick)
    ∷ (pos 60, sweep)
    ∷ (pos 61, get_multi_op ("a" ∷ "b" ∷ []))
    ∷ (pos 120, tick)
    ∷ (pos 121, close_op false)
    ∷ (pos 122, get_op "a")
    ∷ []

new-refines_example :
    run ops empty
    ≡ spec_run ops (record { entries = λ k. none; is_closed = false; is_waiting = false })
new-refines_example = new-refines (pos 60) (pos 0) ops refl (omega arith)

-- A cache that holds one entry.
abbrev one_entry : Memory
unfolding program
one_entry = (set (pos 5) "a" (1 ∷ []) (pos 0) empty).0
