-- ===== src/Email/Queue/Examples.antt =====
-- pantry/email/queue.go: the queue at small inputs.
use waffle.Base.{
  ℕ, ◌+◌, List, ℤ, ◌≡◌, refl, Option, none, some, [], ◌∷◌, pos, arith, comparable_string, lookup,
  total, ◌≤◌,
}
use waffle.Email.Queue.{QueuedEmail, pending, scheduled, mark_sending, after_send, process_next}
use waffle.Email.Queue.Memory.{Emails, dequeue_from, memory_queue_store}
use waffle.Email.Queue.Order.{IsNext, dequeue_from-IsNext}
use waffle.Email.Queue.Rounds.{
  IsQueue, left_of, timed_rounds, timed_rounds-left, process_next-IsQueue,
}
use waffle.Email.Queue.Workers.{Workers, Run, both_waiting, sent_twice}

abbrev urgent : QueuedEmail ℕ ℕ
urgent = record {
  id = "b";
  message = 2;
  priority = pos 5;
  scheduled_at = some (pos 10);
  max_retries = pos 2;
  created_at = pos 3;
  attempts = 0;
  last_error = none;
  status = scheduled;
}

abbrev two_emails : Emails ℕ ℕ
two_emails =
    ("a", record urgent { id = "a"; message = 1; priority = pos 0; status = pending })
    ∷ ("b", urgent)
    ∷ []

abbrev refuses : ℕ → Option ℕ
refuses message = some 7

two_emails-IsQueue : IsQueue two_emails
unfolding lookup
two_emails-IsQueue = (
  (refl, (refl, tt)),
  ((refl, omega arith, λ h. omega arith), ((refl, omega arith, λ h. omega arith), tt)),
)

next_is_urgent : dequeue_from (pos 10) none two_emails ≡ some urgent
unfolding dequeue_from
next_is_urgent = refl

dequeue_from-IsNext_example : IsNext (pos 10) two_emails (dequeue_from (pos 10) none two_emails)
dequeue_from-IsNext_example = dequeue_from-IsNext (pos 10) two_emails

process_next-IsQueue_example :
    IsQueue (process_next (memory_queue_store ℕ ℕ) (pos 10) refuses two_emails).0
process_next-IsQueue_example = process_next-IsQueue (pos 10) refuses two_emails two_emails-IsQueue

abbrev four_rounds : List (ℤ × (ℕ → Option ℕ))
four_rounds = (pos 1, refuses) ∷ (pos 5, refuses) ∷ (pos 12, refuses) ∷ (pos 20, refuses) ∷ []

timed_rounds-left_example :
    ((timed_rounds four_rounds two_emails).1 + total left_of (timed_rounds four_rounds two_emails).0
      ≤ total left_of two_emails)
    × IsQueue (timed_rounds four_rounds two_emails).0
timed_rounds-left_example = timed_rounds-left four_rounds two_emails two_emails-IsQueue

sent_twice_example :
    (end : Workers ℕ ℕ) × Run (pos 10) (both_waiting two_emails) end
    × (end.sent_out ≡ mark_sending urgent ∷ mark_sending urgent ∷ [])
    × ((mark_sending urgent).attempts ≡ 0 + 1)
    × (lookup "b" end.emails ≡ some (after_send (mark_sending urgent) (some 7)))
sent_twice_example =
    sent_twice (pos 10) two_emails urgent none (some 7) two_emails-IsQueue next_is_urgent
