-- ===== src/Jobs/Holder/Examples.antt =====
-- A locker whose key another user has acquired and not released, and a function that fails.
use waffle.Base.{◌≡◌, false, Option, some, pos, [], ◌∷◌, List}
use mathlib.Core.Option
use waffle.Jobs.Locks.{MemoryLocker, LockError, not_held, new_memory_locker}
use waffle.Jobs.Locks
use waffle.Jobs.Locks.Owners.{Op, acquire_op, run}
use waffle.Jobs.Holder.{failed, memory_at, with_lock}
use waffle.Jobs.Holder.WithLock.{with_lock-frees}

abbrev fails : MemoryLocker → MemoryLocker × Option LockError
fails l = (l, some not_held)

abbrev ops : List Op
ops = acquire_op (pos 1) "k" (pos 10) ∷ []

with_lock-frees_example :
    let ended =
      with_lock (memory_at (pos 5)) "k" (pos 10) fails (run ops (new_memory_locker "me")) in
    ((Locks.is_held (pos 7) "k" ended.0).1 ≡ false) × (ended.1 ≡ Option.map failed (some not_held))
with_lock-frees_example = with_lock-frees "me" ops (pos 5) (pos 7) "k" (pos 10) fails
