-- ===== src/Session/Examples.antt =====
-- A store with one session that ends at time 30.
use waffle.Base.{
  ℕ, ◌≡◌, refl, List, [], ◌∷◌, pos, lookup, insert, erase, delete_if, comparable_string, arith,
}
use waffle.Session.{
  ok, err, not_found, expired, panics, SessionData, MemoryStore, new_memory_store_with_config, load,
  save, delete, remove_expired, close, size,
}
use waffle.Session.Cleanup.{Op, save_op, delete_op, tick, run, writes, found, found-load}

abbrev session : SessionData ℕ
session = record {
  id = "a";
  values = ("n", 3) ∷ [];
  expires_at = pos 30;
  created_at = pos 1;
  updated_at = pos 1;
}

abbrev new : MemoryStore ℕ
new = new_memory_store_with_config (pos 0)

program : Unit {0}
unfolding new_memory_store_with_config load save delete remove_expired close size lookup insert
    erase delete_if run
program = tt

in_time : load (pos 30) "a" (save session new) ≡ ok session
unfolding program
in_time = refl

too_late : load (pos 31) "a" (save session new) ≡ err expired
unfolding program
too_late = refl

cleaned : load (pos 32) "a" (remove_expired (pos 31) (save session new)) ≡ err not_found
unfolding program
cleaned = refl

closed_twice : (close (close new).0).1 ≡ panics
unfolding program
closed_twice = refl

abbrev ops : List (Op ℕ)
ops = save_op session ∷ tick (pos 10) ∷ delete_op "b" ∷ tick (pos 20) ∷ []

found-load_example :
    found (load (pos 25) "a" (run ops new)) ≡ found (load (pos 25) "a" (run (writes ops) new))
found-load_example =
    found-load (pos 25) (pos 0) "a" ops (tt, (omega arith, (tt, (omega arith, tt))))
