-- ===== src/Jobs/Locks/Laws.antt =====
-- MemoryLocker: who gets a lock, and for how long.
use waffle.Base.{
  ◌≡◌, ◌≢◌, Bool, true, false, Option, none, some, String, ℤ, ◌+ℤ◌, ◌≤ℤ◌, ltb_ℤ, if◌then◌else◌,
  lookup, Option-cases, inl, inr, ◌&&◌, not, erase, lookup-insert, lookup-erase, comparable_string,
  ◌==◌, arith,
}
use text.Mathlib.TextEquality.{eq_iff}
use waffle.Jobs.Locks.{MemoryLock, MemoryLocker, put, lock_for, acquire, release, extend, is_held}

-- The key is locked at `now` by another owner.
abbrev pub is_foreign : ℤ → MemoryLocker → Option MemoryLock → Bool
is_foreign now l none = false
is_foreign now l (some e) = ltb_ℤ now e.expires && not (e.owner == l.owner_id)

-- `Acquire` refuses exactly a key that another owner holds with time left, and then it changes
-- nothing; otherwise this owner holds the key until `now + ttl`.
pub acquire_lem :
    (now : ℤ) (key : String) (ttl : ℤ) (l : MemoryLocker)
    → acquire now key ttl l ≡ (
        if is_foreign now l (lookup key l.locks)
        then (l, false)
        else (put key (lock_for l now ttl) l, true))
unfolding acquire
acquire_lem now key ttl l = elim (Option-cases (lookup key l.locks)) [
  | inl e ↦ rw (e, acquire)
  | inr (x, e) ↦ rw (e, acquire) (ground (arith, eq_iff x.owner l.owner_id))
]

module _ (now later : ℤ) (key : String) (ttl : ℤ) (l : MemoryLocker) where
  -- A lock that `Acquire` gave at `now` is held up to and at the time `now + ttl`, and no longer:
  -- from then on `IsHeld` removes it.
  pub is_held-acquire :
      (acquire now key ttl l).1 ≡ true
      → let l' = (acquire now key ttl l).0 in
        is_held later key l' ≡ (
          if ltb_ℤ (now +ℤ ttl) later
          then (record l' { locks = erase key l'.locks }, false)
          else (l', true))
  unfolding is_held
  is_held-acquire h = ground (
    arith,
    acquire_lem now key ttl l,
    lookup-insert key key (lock_for l now ttl) l.locks,
    eq_iff key key,
    eq_iff l.owner_id l.owner_id,
  )

  -- Where `Extend` succeeds at `now`, the key is held up to and at `now + ttl`, also if its time
  -- was over before; where it returns ErrLockNotHeld, it changes nothing.
  pub is_held-extend :
      (((extend now key ttl l).1 ≡ none)
        → later ≤ℤ now +ℤ ttl
        → (is_held later key (extend now key ttl l).0).1 ≡ true)
      × ((extend now key ttl l).1 ≢ none → (extend now key ttl l).0 ≡ l)
  unfolding is_held extend
  is_held-extend = elim (Option-cases (lookup key l.locks)) [
    | inl e ↦ rw (e, extend) (ground arith)
    | inr (x, e) ↦
        rw (e, extend)
          (ground (
            arith,
            lookup-insert key key (record x { expires = now +ℤ ttl }) l.locks,
            eq_iff key key,
            eq_iff x.owner l.owner_id,
          ))
  ]

  -- A key that `Release` gives back is held no more and can be acquired again; where it returns
  -- false, it changes nothing.
  pub acquire-release :
      (((release key l).1 ≡ true)
        → ((is_held later key (release key l).0).1 ≡ false)
          × ((acquire now key ttl (release key l).0).1 ≡ true))
      × ((release key l).1 ≡ false → (release key l).0 ≡ l)
  unfolding is_held release
  acquire-release = elim (Option-cases (lookup key l.locks)) [
    | inl e ↦ rw (e, release) (ground arith)
    | inr (x, e) ↦
        rw (e, release)
          (ground (
            arith,
            lookup-erase key key l.locks,
            eq_iff key key,
            acquire_lem now key ttl (record l { locks = erase key l.locks }),
          ))
  ]
