-- ===== src/Jobs/Locks/Examples.antt =====
-- One locker, shared.
use waffle.Base.{◌≡◌, refl, true, false, pos, ◌+ℤ◌, lookup, insert, erase, comparable_string}
use waffle.Jobs.Locks.{MemoryLocker, new_memory_locker, acquire, release, extend, is_held}
use waffle.Jobs.Locks.Owners.{run, step}

program : Unit {0}
unfolding new_memory_locker acquire release extend is_held lookup insert erase ◌+ℤ◌ run step
program = tt

abbrev locker : MemoryLocker
locker = new_memory_locker "me"

abbrev locked : MemoryLocker
locked = (acquire (pos 0) "job" (pos 10) locker).0

-- Held at 10, no longer at 11.
boundary : ((is_held (pos 10) "job" locked).1 ≡ true) × ((is_held (pos 11) "job" locked).1 ≡ false)
unfolding program
boundary = (refl, refl)

-- Another user of the locker is let in while the lock is held.
second_user : (acquire (pos 5) "job" (pos 10) locked).1 ≡ true
unfolding program
second_user = refl
