-- ===== src/Jobs/Holder/WithLock.antt =====
-- pantry/jobs/lock.go: WithLock over a MemoryLocker.
use waffle.Base.{
  ◌≡◌, refl, false, List, Option, String, ℤ, lookup, lookup-erase, comparable_string, arith,
  Option-cases, inl, inr,
}
use mathlib.Core.Option
use text.Mathlib.TextEquality.{eq_iff}
use waffle.Jobs.Locks.{MemoryLocker, LockError, new_memory_locker}
use waffle.Jobs.Locks
use waffle.Jobs.Locks.Owners.{Op, run, acquire-always}
use waffle.Jobs.Holder.{failed, memory_at, with_lock, acquire, release, new_lock}

-- What `Release` leaves, `IsHeld` denies: the key is gone, or another owner's.
is_held-release :
    (later : ℤ) (key : String) (l : MemoryLocker)
    → (Locks.is_held later key (Locks.release key l).0).1 ≡ false
unfolding Locks.is_held Locks.release
is_held-release later key l = elim (Option-cases (lookup key l.locks)) [
  | inl e ↦ rw (e, Locks.release) (ground arith)
  | inr (x, e) ↦
      rw (e, Locks.release) (ground (arith, lookup-erase key key l.locks, eq_iff key key))
]

-- With a MemoryLocker that any users have called in any way, `WithLock` always runs `fn`, also while
-- another user holds the key, and returns its error; whatever `fn` did to the locker, the key is
-- not held any more when `WithLock` returns.
pub with_lock-frees :
    (id : String) (ops : List Op) (now later : ℤ) (key : String) (ttl : ℤ)
    (fn : MemoryLocker → MemoryLocker × Option LockError)
    → let l = run ops (new_memory_locker id) in
      let ended = with_lock (memory_at now) key ttl fn l in
      ((Locks.is_held later key ended.0).1 ≡ false)
      × (ended.1 ≡ Option.map failed (fn (Locks.acquire now key ttl l).0).1)
unfolding with_lock new_lock acquire release
with_lock-frees id ops now later key ttl fn =
    let l = run ops (new_memory_locker id) in
    rw (acquire-always id ops now key ttl)
      (is_held-release later key (fn (Locks.acquire now key ttl l).0).0, refl)
