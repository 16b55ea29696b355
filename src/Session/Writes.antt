-- ===== src/Session/Writes.antt =====
-- The session under a key after a write.
use waffle.Base.{◌≡◌, String, ℤ, if◌then◌else◌, lookup-insert, comparable_string, ◌==◌, arith}
use waffle.Session.{ok, err, expired, SessionData, MemoryStore, is_expired, load, save}

module _ {V : Type 0} (now : ℤ) (j : String) (s : MemoryStore V) where
  -- After `Save`, `Load` gives the session back under its ID, or ErrExpired once its time is over,
  -- and under another ID what it gave before.
  pub load-save :
      (d : SessionData V)
      → load now j (save d s)
        ≡ (if d.id == j then (if is_expired now d then err expired else ok d) else load now j s)
  unfolding load save
  load-save d = ground (arith, lookup-insert d.id j d s.sessions)
