-- ===== src/Session.antt =====
-- pantry/session/memory.go: the memory store of sessions. A session is a value here: the source
-- stores and returns copies. `V` is the type of the stored values.
pub mod Cleanup
pub mod Writes
pub mod Manager
mod Examples
use waffle.Base.{
  ℕ, Bool, true, false, Option, none, some, String, ℤ, pos, ltb_ℤ, eqb_ℤ, length, if◌then◌else◌,
  Map, lookup, insert, erase, delete_if, comparable_string, List, [], ◌∷◌,
}

pub data Error : Type 0 where
  not_found expired : Error

pub data Loaded (A : Type 0) : Type 0 where
  ok : A → Loaded A
  err : Error → Loaded A

-- `Close` returns nil, or panics.
pub data Outcome : Type 0 where
  returns panics : Outcome

pub record SessionData (V : Type 0) : Type 0 where
  pub id : String
  pub values : Map String V
  pub expires_at : ℤ
  pub created_at : ℤ
  pub updated_at : ℤ

-- `is_stopped` says whether `stopCh` is closed; the goroutine `cleanup` then closes `cleanCh`.
pub record MemoryStore (V : Type 0) : Type 0 where
  pub sessions : Map String (SessionData V)
  pub cleanup_interval : ℤ
  pub is_stopped : Bool

module _ {V : Type 0} where
  unfoldable pub new_memory_store_with_config : ℤ → MemoryStore V
  new_memory_store_with_config cleanup_interval = record {
    sessions = [];
    cleanup_interval =
        if eqb_ℤ cleanup_interval (pos 0) then pos 600_000_000_000 else cleanup_interval;
    is_stopped = false;
  }

  -- `time.Now().After(data.ExpiresAt)`
  abbrev pub is_expired : ℤ → SessionData V → Bool
  is_expired now d = ltb_ℤ d.expires_at now

  unfoldable pub load : ℤ → String → MemoryStore V → Loaded (SessionData V)
  load now id s = elim (lookup id s.sessions) [
    | none ↦ err not_found
    | some d ↦ if is_expired now d then err expired else ok d
  ]

  unfoldable pub save : SessionData V → MemoryStore V → MemoryStore V
  save d s = record s { sessions = insert d.id d s.sessions }

  unfoldable pub delete : String → MemoryStore V → MemoryStore V
  delete id s = record s { sessions = erase id s.sessions }

  unfoldable pub remove_expired : ℤ → MemoryStore V → MemoryStore V
  remove_expired now s = record s { sessions = delete_if (is_expired now) s.sessions }

  -- Closing a closed channel panics.
  unfoldable pub close : MemoryStore V → MemoryStore V × Outcome
  close s = if s.is_stopped then (s, panics) else (record s { is_stopped = true }, returns)

  unfoldable pub size : MemoryStore V → ℕ
  size s = length s.sessions
