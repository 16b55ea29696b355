-- ===== src/Jobs/Holder.antt =====
-- pantry/jobs/lock.go: the helper `Lock`, which remembers whether it holds its key, and
-- `WithLock`, over any locker. The waiting variants are not modelled, nor a panic of `fn`.
pub mod WithLock
mod Examples
use waffle.Base.{Bool, true, false, Option, none, some, String, ℤ, if◌then◌else◌}
use mathlib.Core.Option
use waffle.Jobs.Locks.{MemoryLocker}
use waffle.Jobs.Locks

-- `Locker`, with the error beside the result; `Lock` does not use IsHeld.
pub record Locker (E : Type 0) : Type 1 where
  pub State : Type 0
  pub acquire : String → ℤ → State → State × (Bool × Option E)
  pub release : String → State → State × (Bool × Option E)
  pub extend : String → ℤ → State → State × Option E

-- ErrLockNotAcquired, ErrLockNotHeld, and errors of the locker or of `fn`.
pub data HolderError (E : Type 0) : Type 0 where
  not_acquired not_held : HolderError E
  failed : E → HolderError E

pub record Lock : Type 0 where
  pub key : String
  pub ttl : ℤ
  pub held : Bool

unfoldable pub new_lock : String → ℤ → Lock
new_lock key ttl = record { key = key; ttl = ttl; held = false }

module _ {E : Type 0} (locker : Locker E) where
  open locker use {State}

  unfoldable pub acquire : Lock → State → (Lock × State) × (Bool × Option E)
  acquire l st =
      let got = locker.acquire l.key l.ttl st in
      elim got.1.1 [
        | some e ↦ ((l, got.0), (false, some e))
        | none ↦ ((record l { held = got.1.0 }, got.0), (got.1.0, none))
      ]

  unfoldable pub release : Lock → State → (Lock × State) × Option E
  release l st =
      if l.held
      then (let freed = locker.release l.key st in
          ((record l { held = false }, freed.0), freed.1.1))
      else ((l, st), none)

  unfoldable pub extend : Lock → State → State × Option (HolderError E)
  extend l st =
      if l.held
      then (let longer = locker.extend l.key l.ttl st in (longer.0, Option.map failed longer.1))
      else (st, some not_held)

  unfoldable pub is_held : Lock → Bool
  is_held l = l.held

  -- `fn` can use the locker itself; `defer` releases the lock behind it.
  unfoldable pub with_lock :
      String → ℤ → (State → State × Option E) → State → State × Option (HolderError E)
  unfolding new_lock acquire release
  with_lock key ttl fn st =
      let got = acquire (new_lock key ttl) st in
      elim got.1.1 [
        | some e ↦ (got.0.1, some (failed e))
        | none ↦
            let done = fn got.0.1 in
            if got.1.0
            then ((release got.0.0 done.0).0.1, Option.map failed done.1)
            else (got.0.1, some not_acquired)
      ]

-- MemoryLocker as a locker at one time; it returns no error but ErrLockNotHeld.
abbrev pub memory_at : ℤ → Locker Locks.LockError
memory_at now = record {
  State = MemoryLocker;
  acquire = λ key ttl l. (let got = Locks.acquire now key ttl l in (got.0, (got.1, none)));
  release = λ key l. (let freed = Locks.release key l in (freed.0, (freed.1, none)));
  extend = λ key ttl l. Locks.extend now key ttl l;
}
