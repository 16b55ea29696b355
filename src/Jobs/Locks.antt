-- ===== src/Jobs/Locks.antt =====
-- pantry/jobs/lock.go: MemoryLocker.
-- A method that holds `l.mu` is one function; `now` is what `time.Now` returns to it.
pub mod Laws
pub mod Owners
mod Examples
use waffle.Base.{
  ◌≡◌, Bool, true, false, not, ◌||◌, Option, none, some, [], String, ℤ, ◌+ℤ◌, ltb_ℤ, if◌then◌else◌,
  Map, lookup, insert, erase, delete_if, comparable_string, ◌==◌,
}

pub record MemoryLock : Type 0 where
  pub owner : String
  pub expires : ℤ

pub record MemoryLocker : Type 0 where
  pub locks : Map String MemoryLock
  pub owner_id : String

-- ErrLockNotAcquired and ErrLockNotHeld.
pub data LockError : Type 0 where
  not_acquired not_held : LockError

-- `id` is what `generateOwnerID` returns.
unfoldable pub new_memory_locker : String → MemoryLocker
new_memory_locker id = record { locks = []; owner_id = id }

abbrev pub lock_for : MemoryLocker → ℤ → ℤ → MemoryLock
lock_for l now ttl = record { owner = l.owner_id; expires = now +ℤ ttl }

-- `l.locks[key] = …`, also for a write through the pointer that the map holds.
abbrev pub put : String → MemoryLock → MemoryLocker → MemoryLocker
put key e l = record l { locks = insert key e l.locks }

unfoldable pub acquire : ℤ → String → ℤ → MemoryLocker → MemoryLocker × Bool
acquire now key ttl l = elim (lookup key l.locks) [
  | none ↦ (put key (lock_for l now ttl) l, true)
  | some existing ↦
      if ltb_ℤ now existing.expires
      then (if not (existing.owner == l.owner_id)
          then (l, false)
          else (put key (record existing { expires = now +ℤ ttl }) l, true))
      else (put key (lock_for l now ttl) l, true)
]

unfoldable pub release : String → MemoryLocker → MemoryLocker × Bool
release key l = elim (lookup key l.locks) [
  | none ↦ (l, false)
  | some existing ↦
      if not (existing.owner == l.owner_id)
      then (l, false)
      else (record l { locks = erase key l.locks }, true)
]

unfoldable pub extend : ℤ → String → ℤ → MemoryLocker → MemoryLocker × Option LockError
extend now key ttl l = elim (lookup key l.locks) [
  | none ↦ (l, some not_held)
  | some existing ↦
      if not (existing.owner == l.owner_id)
      then (l, some not_held)
      else (put key (record existing { expires = now +ℤ ttl }) l, none)
]

unfoldable pub is_held : ℤ → String → MemoryLocker → MemoryLocker × Bool
is_held now key l = elim (lookup key l.locks) [
  | none ↦ (l, false)
  | some existing ↦
      if ltb_ℤ existing.expires now
      then (record l { locks = erase key l.locks }, false)
      else (l, existing.owner == l.owner_id)
]

unfoldable pub cleanup : ℤ → MemoryLocker → MemoryLocker
cleanup now l = record l { locks = delete_if (λ e. ltb_ℤ e.expires now) l.locks }
