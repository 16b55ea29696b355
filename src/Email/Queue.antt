-- ===== src/Email/Queue.antt =====
-- pantry/email/queue.go: emails, the interface QueueStore, and Queue over it. Of an email, the
-- fields that the queue reads; a nil error is none. Log lines only observe.
pub mod Memory
pub mod Order
pub mod Rounds
pub mod Workers
mod Examples
use waffle.Base.{
  ℕ, suc, ◌+◌, Bool, true, false, ◌&&◌, ◌||◌, not, Option, none, some, ◌⊎◌, inl, inr, String, ◌==◌,
  comparable_string, ℤ, pos, negsuc, ltb_ℤ, leb_ℤ, eqb_ℤ, if◌then◌else◌,
}

-- `unset` is the empty text.
pub data EmailStatus : Type 0 where
  unset pending scheduled sending sent failed : EmailStatus

-- The zero time, in nanoseconds from the start of 1970.
abbrev pub zero_time : ℤ
zero_time = negsuc 62_135_596_799_999_999_999

pub record QueuedEmail (M E : Type 0) : Type 0 where
  pub id : String
  pub message : M
  pub priority : ℤ
  pub scheduled_at : Option ℤ
  pub max_retries : ℤ
  pub created_at : ℤ
  pub attempts : ℕ
  pub last_error : Option E
  pub status : EmailStatus

-- The errors of the queue: that of the store, and that of Cancel.
pub data QueueError : Type 0 where
  email_not_found cannot_cancel store_failed : QueueError

-- QueueStore, less List and Stats. A time is the time that the method reads.
pub record QueueStores (M E : Type 0) : Type 1 where
  pub State : Type 0
  pub enqueue : QueuedEmail M E → State → State × Option QueueError
  pub dequeue : ℤ → State → Option (QueuedEmail M E) ⊎ QueueError
  pub update : QueuedEmail M E → State → State × Option QueueError
  pub get : String → State → QueuedEmail M E ⊎ QueueError
  pub delete : String → State → State × Option QueueError

-- `email.ScheduledAt != nil && email.ScheduledAt.After(now)`
abbrev pub is_later : ℤ → Option ℤ → Bool
is_later now none = false
is_later now (some t) = ltb_ℤ now t

abbrev pub is_unset : EmailStatus → Bool
is_unset unset = true
is_unset _ = false

-- The loop of Cancel's test: sent or sending.
abbrev pub is_out : EmailStatus → Bool
is_out sending = true
is_out sent = true
is_out _ = false

-- What `processNext` did: the hooks OnSent and OnFailed are called with the email of `delivered`
-- and of `gave_up`.
pub data Outcome (M E : Type 0) : Type 0 where
  idle : Outcome M E
  delivered : QueuedEmail M E → Outcome M E
  gave_up : QueuedEmail M E → E → Outcome M E
  retried : QueuedEmail M E → E → Outcome M E

module _ {M E : Type 0} where
  -- The fields that Enqueue sets; `new_id` is the text of generateEmailID.
  unfoldable pub with_defaults : ℤ → String → QueuedEmail M E → QueuedEmail M E
  with_defaults now new_id e = record e {
    id = if e.id == "" then new_id else e.id;
    created_at = if eqb_ℤ e.created_at zero_time then now else e.created_at;
    max_retries = if eqb_ℤ e.max_retries (pos 0) then pos 3 else e.max_retries;
    status =
        if is_unset e.status
        then (if is_later now e.scheduled_at then scheduled else pending)
        else e.status;
  }

  -- The email when it is taken, and when the sender has returned.
  unfoldable pub mark_sending : QueuedEmail M E → QueuedEmail M E
  mark_sending e = record e { status = sending; attempts = e.attempts + 1 }

  unfoldable pub after_send : QueuedEmail M E → Option E → QueuedEmail M E
  after_send e none = record e { status = sent }
  after_send e (some err) = record e {
    last_error = some err;
    status = if leb_ℤ e.max_retries (pos e.attempts) then failed else pending;
  }

  unfoldable pub outcome_of : QueuedEmail M E → Option E → Outcome M E
  unfolding after_send
  outcome_of e none = delivered (after_send e none)
  outcome_of e (some err) =
      if leb_ℤ e.max_retries (pos e.attempts)
      then gave_up (after_send e (some err)) err
      else retried (after_send e (some err)) err

  module _ (stores : QueueStores M E) where
    unfoldable pub enqueue :
        ℤ → String → QueuedEmail M E → stores.State → stores.State × Option QueueError
    unfolding with_defaults
    enqueue now new_id e s = stores.enqueue (with_defaults now new_id e) s

    unfoldable pub schedule :
        ℤ → String → QueuedEmail M E → ℤ → stores.State → stores.State × Option QueueError
    unfolding enqueue
    schedule now new_id e at s =
        enqueue now new_id (record e { scheduled_at = some at; status = scheduled }) s

    unfoldable pub cancel : String → stores.State → stores.State × Option QueueError
    cancel id s = elim (stores.get id s) [
      | inr err ↦ (s, some err)
      | inl e ↦ if is_out e.status then (s, some cannot_cancel) else stores.delete id s
    ]

    -- `processNext` from the call of the sender on, for an email that is marked.
    unfoldable pub complete : QueuedEmail M E → Option E → stores.State → stores.State × Outcome M E
    unfolding after_send outcome_of
    complete e result s = ((stores.update (after_send e result) s).0, outcome_of e result)

    unfoldable pub process_next : ℤ → (M → Option E) → stores.State → stores.State × Outcome M E
    unfolding mark_sending complete
    process_next now send s = elim (stores.dequeue now s) [
      | inr err ↦ (s, idle)
      | inl none ↦ (s, idle)
      | inl (some e) ↦
          let marked = mark_sending e in
          complete marked (send marked.message) (stores.update marked s).0
    ]
