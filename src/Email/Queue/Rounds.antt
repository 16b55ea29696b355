-- ===== src/Email/Queue/Rounds.antt =====
-- pantry/email/queue.go: rounds of a worker over MemoryQueueStore.
use waffle.Base.{
  ℕ, ◌+◌, ◌-◌, ◌≤◌, ◌<◌, ◌≡◌, refl, ap, Bool, true, Option, Option-cases, none, some, ◌⊎◌, inl, inr,
  List, [], ◌∷◌, String, comparable_string, ℤ, pos_part, if◌then◌else◌, length, All, lookup,
  lookup-insert, insert, IsMap, insert-IsMap, ltb, arith, total, insert-insert, All-insert,
  lookup-Elem, total-insert, Elem-All,
}
use mathlib.Core.Path.{subst}
use waffle.Email.Queue.{
  pending, scheduled, QueuedEmail, Outcome, mark_sending, after_send, outcome_of, complete,
  process_next,
}
use waffle.Email.Queue.Memory.{
  Emails, is_ready, dequeue_from, update_email, memory_queue_store, same_status,
}
use waffle.Email.Queue.Order.{dequeue_from-either, IsNext, dequeue_from-IsNext}

module _ {M E : Type 0} where
  -- How often an email may be sent: at least once.
  abbrev pub allowed : QueuedEmail M E → ℕ
  allowed e = if ltb (pos_part e.max_retries) 1 then 1 else pos_part e.max_retries

  abbrev pub is_waiting : QueuedEmail M E → Bool
  is_waiting e = if same_status e.status pending then true else same_status e.status scheduled

  -- An email is stored under its own id, was never sent more often than it may be, and may be
  -- sent once more while it waits.
  abbrev pub IsBounded : String × QueuedEmail M E → Type 0
  IsBounded (id, e) =
      (id ≡ e.id) × (e.attempts ≤ allowed e) × (is_waiting e ≡ true → e.attempts < allowed e)

  abbrev pub IsQueue : Emails M E → Type 0
  IsQueue m = IsMap m × All IsBounded m

  -- The attempts that are left.
  abbrev pub left_of : QueuedEmail M E → ℕ
  left_of e = if is_waiting e then allowed e - e.attempts else 0

  -- One round, for the email that Dequeue gives.
  pub after_round : (M → Option E) → QueuedEmail M E → QueuedEmail M E
  after_round send e = after_send (mark_sending e) (send e.message)

  process_next-idle :
      (now : ℤ) (send : M → Option E) (m : Emails M E)
      → dequeue_from now none m ≡ none
      → process_next (memory_queue_store M E) now send m ≡ (m, Outcome.idle)
  unfolding process_next
  process_next-idle now send m e = rw (e, process_next) refl

  pub update_email_lem :
      (e old : QueuedEmail M E) (m : Emails M E)
      → lookup e.id m ≡ some old
      → (update_email e m).0 ≡ insert e.id e m
  unfolding update_email
  update_email_lem e old m k = rw (k, update_email) refl

  pub update-twice :
      (e old : QueuedEmail M E) (result : Option E) (m : Emails M E)
      → lookup e.id m ≡ some old
      → (update_email (after_send e result) (update_email e m).0).0
        ≡ insert e.id (after_send e result) m
  unfolding after_send
  update-twice e old none m k = ground (
    arith,
    comparable_string.equals_iff e.id e.id,
    update_email_lem e old m k,
    update_email_lem (after_send e none) e (insert e.id e m),
    lookup-insert e.id e.id e m,
    insert-insert e.id (after_send e none) e m,
  )
  update-twice e old (some err) m k = ground (
    arith,
    comparable_string.equals_iff e.id e.id,
    update_email_lem e old m k,
    update_email_lem (after_send e (some err)) e (insert e.id e m),
    lookup-insert e.id e.id e m,
    insert-insert e.id (after_send e (some err)) e m,
  )

  pub process_next-taken :
      (now : ℤ) (send : M → Option E) (m : Emails M E) (e old : QueuedEmail M E)
      → dequeue_from now none m ≡ some e
      → lookup e.id m ≡ some old
      → process_next (memory_queue_store M E) now send m
        ≡ (insert e.id (after_round send e) m, outcome_of (mark_sending e) (send e.message))
  unfolding process_next complete update_email mark_sending after_round
  process_next-taken now send m e old h k =
      rw (h, process_next)
        (ap (λ s. (s, outcome_of (mark_sending e) (send e.message)))
          (update-twice (mark_sending e) old (send e.message) m k))

  pub dequeue_from-lookup :
      (now : ℤ) (m : Emails M E) (e : QueuedEmail M E)
      → IsQueue m
      → dequeue_from now none m ≡ some e
      → (lookup e.id m ≡ some e) × (is_ready now e ≡ true) × IsBounded (e.id, e)
  dequeue_from-lookup now m e (is, bounded) h = elim (dequeue_from-either now none m e h) [
    | inl same ↦ cc
    | inr ((id, place), ready) ↦
        let own = Elem-All IsBounded (id, e) m bounded place in
        (
          subst (λ k. lookup k m ≡ some e) own.0 (lookup-Elem id e m is place),
          ready,
          (refl, own.1, own.2),
        )
  ]

  after_round-IsBounded :
      (now : ℤ) (send : M → Option E) (e : QueuedEmail M E)
      → is_ready now e ≡ true
      → IsBounded (e.id, e)
      → IsBounded (e.id, after_round send e)
  unfolding after_round mark_sending after_send is_ready
  after_round-IsBounded now send e ready h = ground arith

  left-after_round :
      (now : ℤ) (send : M → Option E) (e : QueuedEmail M E)
      → is_ready now e ≡ true
      → IsBounded (e.id, e)
      → left_of (after_round send e) < left_of e
  unfolding after_round mark_sending after_send is_ready
  left-after_round now send e ready h = ground arith

  -- A round keeps the queue within its bounds, whatever the sender answers.
  pub process_next-IsQueue :
      (now : ℤ) (send : M → Option E) (m : Emails M E)
      → IsQueue m
      → IsQueue (process_next (memory_queue_store M E) now send m).0
  process_next-IsQueue now send m h = elim (Option-cases (dequeue_from now none m)) [
    | inl none_ready ↦ rw (process_next-idle now send m none_ready) h
    | inr (e, next) ↦
        let (found, ready, bounded) = dequeue_from-lookup now m e h next in
        rw (process_next-taken now send m e e next found) (
          insert-IsMap e.id (after_round send e) m h.0,
          All-insert IsBounded e.id (after_round send e) m
              (after_round-IsBounded now send e ready bounded) h.1,
        )
  ]

  -- A round uses up an attempt of some email, or no email is ready.
  left-process_next :
      (now : ℤ) (send : M → Option E) (m : Emails M E)
      → IsQueue m
      → (dequeue_from now none m ≡ none)
        ⊎ (total left_of (process_next (memory_queue_store M E) now send m).0 < total left_of m)
  left-process_next now send m h = elim (Option-cases (dequeue_from now none m)) [
    | inl none_ready ↦ inl none_ready
    | inr (e, next) ↦
        let (found, ready, bounded) = dequeue_from-lookup now m e h next in
        inr (
          rw (process_next-taken now send m e e next found) (
            omega (
              arith,
              total-insert left_of e.id (after_round send e) e m found,
              left-after_round now send e ready bounded,
            )))
  ]

  -- The rounds of a worker that read the same time, one sender for each.
  unfoldable rounds : ℤ → List (M → Option E) → Emails M E → Emails M E
  rounds now [] m = m
  rounds now (send ∷ sends) m =
      rounds now sends (process_next (memory_queue_store M E) now send m).0

  rounds-idle :
      (now : ℤ) (sends : List (M → Option E)) (m : Emails M E)
      → dequeue_from now none m ≡ none
      → rounds now sends m ≡ m
  unfolding rounds
  rounds-idle now [] m h = refl
  rounds-idle now (send ∷ sends) m h =
      rw (process_next-idle now send m h) (rounds-idle now sends m h)

  -- A queue within its bounds is empty of ready emails after as many rounds, which all read the same
  -- time, as it has attempts left, whatever the senders answer.
  rounds-finish :
      (now : ℤ) (sends : List (M → Option E)) (m : Emails M E)
      → IsQueue m
      → total left_of m ≤ length sends
      → IsNext now (rounds now sends m) none
  unfolding rounds
  rounds-finish now [] m h k = elim (left-process_next now (λ message. none) m h) [
    | inl none_ready ↦ rw none_ready at (dequeue_from-IsNext now m)
    | inr less ↦ absurd (omega arith)
  ]
  rounds-finish now (send ∷ sends) m h k = elim (left-process_next now send m h) [
    | inl none_ready ↦
        rw (rounds-idle now (send ∷ sends) m none_ready)
          (rw none_ready at (dequeue_from-IsNext now m))
    | inr less ↦
        rounds-finish now sends (process_next (memory_queue_store M E) now send m).0
          (process_next-IsQueue now send m h) (omega arith)
  ]

  -- How many emails a round has sent.
  abbrev pub sent_by : Outcome M E → ℕ
  sent_by Outcome.idle = 0
  sent_by (Outcome.delivered e) = 1
  sent_by (Outcome.gave_up e err) = 1
  sent_by (Outcome.retried e err) = 1

  sent_by-le : (o : Outcome M E) → sent_by o ≤ 1
  sent_by-le Outcome.idle = omega arith
  sent_by-le (Outcome.delivered e) = omega arith
  sent_by-le (Outcome.gave_up e err) = omega arith
  sent_by-le (Outcome.retried e err) = omega arith

  -- Rounds with their times and their senders: the queue, and how many emails were sent.
  unfoldable pub timed_rounds : List (ℤ × (M → Option E)) → Emails M E → Emails M E × ℕ
  timed_rounds [] m = (m, 0)
  timed_rounds ((now, send) ∷ more) m =
      let one = process_next (memory_queue_store M E) now send m in
      let rest = timed_rounds more one.0 in (rest.0, sent_by one.1 + rest.1)

  -- A round sends an email only for an attempt that was left.
  sent_by-left :
      (now : ℤ) (send : M → Option E) (m : Emails M E)
      → IsQueue m
      → let one = process_next (memory_queue_store M E) now send m in
        sent_by one.1 + total left_of one.0 ≤ total left_of m
  sent_by-left now send m h = elim (Option-cases (dequeue_from now none m)) [
    | inl none_ready ↦ rw (process_next-idle now send m none_ready) (omega arith)
    | inr (e, next) ↦
        let (found, ready, bounded) = dequeue_from-lookup now m e h next in
        rw (process_next-taken now send m e e next found) (
          omega (
            arith,
            total-insert left_of e.id (after_round send e) e m found,
            left-after_round now send e ready bounded,
            sent_by-le (outcome_of (mark_sending e) (send e.message)),
          ))
  ]

  -- Rounds at any times, with whatever answers of the senders, send at most as many emails as a queue
  -- within its bounds has attempts left, and what they send is taken off these: no email is tried
  -- again and again. The queue stays within its bounds.
  pub timed_rounds-left :
      (rs : List (ℤ × (M → Option E))) (m : Emails M E)
      → IsQueue m
      → ((timed_rounds rs m).1 + total left_of (timed_rounds rs m).0 ≤ total left_of m)
        × IsQueue (timed_rounds rs m).0
  unfolding timed_rounds
  timed_rounds-left [] m h = (omega arith, h)
  timed_rounds-left ((now, send) ∷ more) m h =
      let one = process_next (memory_queue_store M E) now send m in
      let (le, is) = timed_rounds-left more one.0 (process_next-IsQueue now send m h) in
      (omega (arith, sent_by-left now send m h), is)
