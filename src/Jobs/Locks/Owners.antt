-- ===== src/Jobs/Locks/Owners.antt =====
-- A MemoryLocker enters no owner but its own, so among the users of one locker nobody is refused.
use waffle.Base.{
  ◌≡◌, refl, inl, inr, Bool, true, false, some, List, [], ◌∷◌, String, ℤ, ltb_ℤ, arith, Map, All,
  insert, erase, delete_if, lookup, comparable_string, Option-cases,
}
use text.Mathlib.TextEquality.{eq_iff}
use waffle.Jobs.Locks.{
  MemoryLock, MemoryLocker, new_memory_locker, lock_for, put, acquire, release, extend, is_held,
  cleanup,
}
use waffle.Jobs.Locks.Laws.{is_foreign, acquire_lem}

-- A call of a method, by any goroutine that shares the locker.
pub data Op : Type 0 where
  acquire_op extend_op : ℤ → String → ℤ → Op
  release_op : String → Op
  is_held_op : ℤ → String → Op
  cleanup_op : ℤ → Op

unfoldable pub step : Op → MemoryLocker → MemoryLocker
step (acquire_op now key ttl) l = (acquire now key ttl l).0
step (extend_op now key ttl) l = (extend now key ttl l).0
step (release_op key) l = (release key l).0
step (is_held_op now key) l = (is_held now key l).0
step (cleanup_op now) l = cleanup now l

unfoldable pub run : List Op → MemoryLocker → MemoryLocker
run [] l = l
run (op ∷ ops) l = run ops (step op l)

abbrev OwnedBy : String → Map String MemoryLock → Type 0
OwnedBy id = All (λ e. e.1.owner ≡ id)

insert-OwnedBy :
    (id k : String) (e : MemoryLock) (m : Map String MemoryLock)
    → e.owner ≡ id
    → OwnedBy id m
    → OwnedBy id (insert k e m)
unfolding insert
insert-OwnedBy id k e [] h o = (h, tt)
insert-OwnedBy id k e ((j, x) ∷ m) h o = ground (arith, insert-OwnedBy id k e m h o.1)

erase-OwnedBy : (id k : String) (m : Map String MemoryLock) → OwnedBy id m → OwnedBy id (erase k m)
unfolding erase
erase-OwnedBy id k [] o = tt
erase-OwnedBy id k ((j, x) ∷ m) o = ground (arith, erase-OwnedBy id k m o.1)

delete_if-OwnedBy :
    (id : String) (p : MemoryLock → Bool) (m : Map String MemoryLock)
    → OwnedBy id m
    → OwnedBy id (delete_if p m)
unfolding delete_if
delete_if-OwnedBy id p [] o = tt
delete_if-OwnedBy id p ((j, x) ∷ m) o = ground (arith, delete_if-OwnedBy id p m o.1)

lookup-OwnedBy :
    (id k : String) (m : Map String MemoryLock) (e : MemoryLock)
    → OwnedBy id m
    → lookup k m ≡ some e
    → e.owner ≡ id
unfolding lookup
lookup-OwnedBy id k [] e o h = cc
lookup-OwnedBy id k ((j, x) ∷ m) e o h = ground (arith, lookup-OwnedBy id k m e o.1)

-- Every entry is this locker's own.
abbrev IsOwned : String → MemoryLocker → Type 0
IsOwned id l = (l.owner_id ≡ id) × OwnedBy id l.locks

module _ (id key : String) (l : MemoryLocker) (o : IsOwned id l) where
  not_foreign : (now : ℤ) → is_foreign now l (lookup key l.locks) ≡ false
  not_foreign now = elim (Option-cases (lookup key l.locks)) [
    | inl e ↦ rw e
    | inr (x, e) ↦
        rw e (ground (arith, lookup-OwnedBy id key l.locks x o.1 e, eq_iff x.owner l.owner_id, o.0))
  ]

  put-IsOwned : (e : MemoryLock) → e.owner ≡ id → IsOwned id (put key e l)
  put-IsOwned e h = (o.0, insert-OwnedBy id key e l.locks h o.1)

  erase-IsOwned : IsOwned id (record l { locks = erase key l.locks })
  erase-IsOwned = (o.0, erase-OwnedBy id key l.locks o.1)

  acquire-IsOwned : (now ttl : ℤ) → IsOwned id (acquire now key ttl l).0
  acquire-IsOwned now ttl =
      rw (acquire_lem now key ttl l, not_foreign now) (put-IsOwned (lock_for l now ttl) o.0)

  extend-IsOwned : (now ttl : ℤ) → IsOwned id (extend now key ttl l).0
  unfolding extend
  extend-IsOwned now ttl = elim (Option-cases (lookup key l.locks)) [
    | inl e ↦ rw (e, extend) o
    | inr (x, e) ↦
        let own = lookup-OwnedBy id key l.locks x o.1 e in
        rw (e, extend)
          (ground (arith, put-IsOwned (lock_for l now ttl) o.0, eq_iff x.owner l.owner_id))
  ]

  release-IsOwned : IsOwned id (release key l).0
  unfolding release
  release-IsOwned = elim (Option-cases (lookup key l.locks)) [
    | inl e ↦ rw (e, release) o
    | inr (x, e) ↦ rw (e, release) (ground (arith, erase-IsOwned))
  ]

  is_held-IsOwned : (now : ℤ) → IsOwned id (is_held now key l).0
  unfolding is_held
  is_held-IsOwned now = elim (Option-cases (lookup key l.locks)) [
    | inl e ↦ rw (e, is_held) o
    | inr (x, e) ↦ rw (e, is_held) (ground (arith, erase-IsOwned))
  ]

step-IsOwned : (id : String) (op : Op) (l : MemoryLocker) → IsOwned id l → IsOwned id (step op l)
unfolding step cleanup
step-IsOwned id (acquire_op now key ttl) l o = acquire-IsOwned id key l o now ttl
step-IsOwned id (extend_op now key ttl) l o = extend-IsOwned id key l o now ttl
step-IsOwned id (release_op key) l o = release-IsOwned id key l o
step-IsOwned id (is_held_op now key) l o = is_held-IsOwned id key l o now
step-IsOwned id (cleanup_op now) l o =
    (o.0, delete_if-OwnedBy id (λ e. ltb_ℤ e.expires now) l.locks o.1)

run-IsOwned :
    (id : String) (ops : List Op) (l : MemoryLocker) → IsOwned id l → IsOwned id (run ops l)
unfolding run
run-IsOwned id [] l o = o
run-IsOwned id (op ∷ ops) l o = run-IsOwned id ops (step op l) (step-IsOwned id op l o)

-- After any calls of any users of one MemoryLocker, `Acquire` returns true for every key, also
-- for one that another user has acquired and not released.
pub acquire-always :
    (id : String) (ops : List Op) (now : ℤ) (key : String) (ttl : ℤ)
    → (acquire now key ttl (run ops (new_memory_locker id))).1 ≡ true
unfolding new_memory_locker
acquire-always id ops now key ttl =
    let l = run ops (new_memory_locker id) in
    let o = run-IsOwned id ops (new_memory_locker id) (refl, tt) in
    rw (acquire_lem now key ttl l, not_foreign id key l o now)
