-- ===== src/Audit/Logger.antt =====
-- pantry/audit/audit.go: AuditLogger, with its buffer of events and its workers. The hooks run
-- before an event may refuse it; those after it only observe.
pub mod Closing
use waffle.Base.{
  ℕ, suc, ◌-◌, ◌<◌, ◌≡◌, Bool, true, false, Option, none, some, List, [], ◌∷◌, ◌++◌, ltb, leb, ℤ,
  pos, pos_part, leb_ℤ, length, if◌then◌else◌,
}

pub data LogError : Type 0 where
  refused not_stored : LogError

-- `finished` are the events that processEvent has dealt with, in order, with the error that the
-- hooks after it saw. `running` is the number of workers that have not returned, and `taken` are
-- the events that workers have received and are processing, one each.
pub record AuditLogger (E : Type 0) : Type 0 where
  pub queue : List E
  pub capacity : ℕ
  pub running : ℕ
  pub taken : List E
  pub done : Bool
  pub finished : List (E × Option LogError)

-- What the logger is configured with: the hooks before an event, and the store.
pub record Config (E : Type 0) : Type 0 where
  pub before_log : List (E → Bool)
  pub stores : E → Bool

module _ {E : Type 0} where
  unfoldable pub new_logger : ℤ → ℤ → AuditLogger E
  new_logger buffer_size workers = record {
    queue = [];
    capacity = if leb_ℤ buffer_size (pos 0) then 1000 else pos_part buffer_size;
    running = if leb_ℤ workers (pos 0) then 2 else pos_part workers;
    taken = [];
    done = false;
    finished = [];
  }

  -- The loop of the hooks: the first that refuses ends it.
  unfoldable pub allows : List (E → Bool) → E → Bool
  allows [] e = true
  allows (hook ∷ hooks) e = let rest = allows hooks e in if hook e then rest else false

  module _ (config : Config E) where
    unfoldable pub result_of : E → Option LogError
    unfolding allows
    result_of e =
        if allows config.before_log e
        then (if config.stores e then none else some not_stored)
        else some refused

    unfoldable pub process_event : E → AuditLogger E → AuditLogger E
    unfolding result_of
    process_event e l = record l { finished = l.finished ++ (e, result_of e) ∷ [] }

    -- The error that Log returns, which is always nil.
    unfoldable pub log : E → AuditLogger E → AuditLogger E × Option LogError
    unfolding process_event
    log e l = (process_event e l, none)

    -- The buffer has room, or the event is processed at once.
    unfoldable pub log_async : E → AuditLogger E → AuditLogger E
    unfolding process_event
    log_async e l =
        if ltb (length l.queue) l.capacity
        then record l { queue = l.queue ++ e ∷ [] }
        else process_event e l

    -- The steps of the workers: one that has no event takes one off the buffer, one ends the
    -- processing of its event, which may be any that is taken, or one that has no event returns
    -- once the logger is closed and the buffer is empty.
    pub data Works : AuditLogger E → AuditLogger E → Type 0 where
      takes :
          {l : AuditLogger E} {e : E} {rest : List E}
          → length l.taken < l.running
          → l.queue ≡ e ∷ rest
          → Works l (record l { queue = rest; taken = e ∷ l.taken })
      ends :
          {l : AuditLogger E} (e : E) (earlier others : List E)
          → l.taken ≡ earlier ++ e ∷ others
          → Works l (process_event e (record l { taken = earlier ++ others }))
      returns :
          {l : AuditLogger E}
          → length l.taken < l.running
          → l.done ≡ true
          → l.queue ≡ []
          → Works l (record l { running = l.running - 1 })

    -- The steps of callers, each at the moment its effect is there. A second `close` panics.
    pub data Calls : AuditLogger E → AuditLogger E → Type 0 where
      logs : {l : AuditLogger E} (e : E) → Calls l (log e l).0
      logs_async : {l : AuditLogger E} (e : E) → Calls l (log_async e l)
      closes : {l : AuditLogger E} → l.done ≡ false → Calls l (record l { done = true })

    pub data Run : AuditLogger E → AuditLogger E → Type 0 where
      at_end : {l : AuditLogger E} → Run l l
      worker : {l m n : AuditLogger E} → Works l m → Run m n → Run l n
      caller : {l m n : AuditLogger E} → Calls l m → Run m n → Run l n

    -- A run in which nobody calls.
    pub data Drain : AuditLogger E → AuditLogger E → Type 0 where
      drained : {l : AuditLogger E} → Drain l l
      drains : {l m n : AuditLogger E} → Works l m → Drain m n → Drain l n
