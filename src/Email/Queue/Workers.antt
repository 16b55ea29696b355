-- ===== src/Email/Queue/Workers.antt =====
-- pantry/email/queue.go: two workers. `processNext` reads the queue, marks the email and sends it
-- in steps that each hold the mutex of the store, so the steps of two workers interleave.
use waffle.Base.{
  ◌+◌, ◌≡◌, refl, Option, none, some, List, [], ◌∷◌, ◌++◌, ℤ, String, lookup, lookup-insert,
  comparable_string, arith,
}
use waffle.Email.Queue.{QueuedEmail, mark_sending, after_send}
use waffle.Email.Queue.Memory.{Emails, dequeue_from, update_email}
use waffle.Email.Queue.Rounds.{IsQueue, update_email_lem, dequeue_from-lookup}

-- Where a worker stands in `processNext`, with its own copy of the email.
pub data Worker (M E : Type 0) : Type 0 where
  waiting : Worker M E
  has_taken : QueuedEmail M E → Worker M E
  has_marked : QueuedEmail M E → Worker M E

-- The emails that were handed to the sender stand in `sent_out`, the latest first.
pub record Workers (M E : Type 0) : Type 0 where
  pub emails : Emails M E
  pub first : Worker M E
  pub second : Worker M E
  pub sent_out : List (QueuedEmail M E)

module _ {M E : Type 0} where
  -- A step of one worker at a time: the store and the worker before and after, and between them
  -- what goes to the sender.
  pub data Moves
      : ℤ
        → Emails M E
        → Worker M E
        → List (QueuedEmail M E)
        → Emails M E
        → Worker M E
        → Type 0 where
    takes :
        {now : ℤ} {m : Emails M E} {e : QueuedEmail M E}
        → dequeue_from now none m ≡ some e
        → Moves now m waiting [] m (has_taken e)
    marks :
        {now : ℤ} {m : Emails M E} {e : QueuedEmail M E}
        → Moves now m
            (has_taken e)
            []
            (update_email (mark_sending e) m).0
            (has_marked (mark_sending e))
    sends :
        {now : ℤ} {m : Emails M E} {e : QueuedEmail M E} (result : Option E)
        → Moves now m (has_marked e) (e ∷ []) (update_email (after_send e result) m).0 waiting

  pub data Run : ℤ → Workers M E → Workers M E → Type 0 where
    finished : {now : ℤ} {s : Workers M E} → Run now s s
    first_moves :
        {now : ℤ} {s t : Workers M E} {out : List (QueuedEmail M E)} {m : Emails M E}
        {w : Worker M E}
        → Moves now s.emails s.first out m w
        → Run now (record s { emails = m; first = w; sent_out = out ++ s.sent_out }) t
        → Run now s t
    second_moves :
        {now : ℤ} {s t : Workers M E} {out : List (QueuedEmail M E)} {m : Emails M E}
        {w : Worker M E}
        → Moves now s.emails s.second out m w
        → Run now (record s { emails = m; second = w; sent_out = out ++ s.sent_out }) t
        → Run now s t

  abbrev pub both_waiting : Emails M E → Workers M E
  both_waiting m = record { emails = m; first = waiting; second = waiting; sent_out = [] }

  after_send-id : (e : QueuedEmail M E) (result : Option E) → (after_send e result).id ≡ e.id
  unfolding after_send
  after_send-id e none = refl
  after_send-id e (some err) = refl

  update-found :
      (x old : QueuedEmail M E) (id : String) (m : Emails M E)
      → x.id ≡ id
      → lookup id m ≡ some old
      → lookup id (update_email x m).0 ≡ some x
  update-found x old id m same found = ground (
    arith,
    update_email_lem x old m,
    lookup-insert x.id id x m,
    comparable_string.equals_iff id id,
  )

  -- What the store has after both workers have marked and sent the email.
  abbrev pub sent_by_both : QueuedEmail M E → Option E → Option E → Emails M E → Emails M E
  sent_by_both e a b m =
      let marked = (update_email (mark_sending e) (update_email (mark_sending e) m).0).0 in
      (update_email (after_send (mark_sending e) b)
        (update_email (after_send (mark_sending e) a) marked).0).0

  sent_by_both-found :
      (e old : QueuedEmail M E) (a b : Option E) (m : Emails M E)
      → lookup e.id m ≡ some old
      → lookup e.id (sent_by_both e a b m) ≡ some (after_send (mark_sending e) b)
  unfolding mark_sending
  sent_by_both-found e old a b m found =
      let once = update-found (mark_sending e) old e.id m refl found in
      let marked = (update_email (mark_sending e) m).0 in
      let twice = update-found (mark_sending e) (mark_sending e) e.id marked refl once in
      let marked' = (update_email (mark_sending e) marked).0 in
      let first =
        update-found (after_send (mark_sending e) a) (mark_sending e) e.id marked'
          (after_send-id (mark_sending e) a) twice in
      update-found (after_send (mark_sending e) b) (after_send (mark_sending e) a) e.id
        (update_email (after_send (mark_sending e) a) marked').0 (after_send-id (mark_sending e) b)
        first

  -- From any queue within its bounds with a ready email, two workers can both send that email, each
  -- counting one attempt more than it had: Dequeue does not mark what it gives. Whatever the sender
  -- answers to either, the queue ends with what the second answer makes of the email, as if it had
  -- been sent once.
  pub sent_twice :
      (now : ℤ) (m : Emails M E) (e : QueuedEmail M E) (a b : Option E)
      → IsQueue m
      → dequeue_from now none m ≡ some e
      → (end : Workers M E) × Run now (both_waiting m) end
        × (end.sent_out ≡ mark_sending e ∷ mark_sending e ∷ [])
        × ((mark_sending e).attempts ≡ e.attempts + 1)
        × (lookup e.id end.emails ≡ some (after_send (mark_sending e) b))
  unfolding mark_sending
  sent_twice now m e a b q h = (
    record {
      emails = sent_by_both e a b m;
      first = waiting;
      second = waiting;
      sent_out = mark_sending e ∷ mark_sending e ∷ [];
    },
    first_moves (takes h) (
        second_moves (takes h) (
          first_moves marks
            (second_moves marks (first_moves (sends a) (second_moves (sends b) finished))))),
    refl,
    omega arith,
    sent_by_both-found e e a b m (dequeue_from-lookup now m e q h).0,
  )
