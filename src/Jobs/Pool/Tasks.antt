-- ===== src/Jobs/Pool/Tasks.antt =====
-- Any number of goroutines at the sections of the pool.
use waffle.Base.{ℕ, zero, suc, ◌+◌, ◌≤◌, ◌≡◌, ◌∙◌, refl, true, ℤ, ltb, arith}
use waffle.Jobs.Pool.{
  Pool, new_pool, can_send, send, add_task, raise_running, receive, task_done, lower_running,
  wait_returns,
}

-- The pool with the number of goroutines that have sent, that are in the wait group too, that run
-- their task, and whose deferred function has received, or has left the wait group too.
pub record System : Type 0 where
  pub pool : Pool
  pub sent : ℕ
  pub added : ℕ
  pub executing : ℕ
  pub received : ℕ
  pub left : ℕ

abbrev pub start : ℤ → System
start workers = record {
  pool = new_pool workers;
  sent = 0;
  added = 0;
  executing = 0;
  received = 0;
  left = 0;
}

pub data Step : System → System → Type 0 where
  send_step :
      (s : System)
      → can_send s.pool ≡ true
      → Step s (record s { pool = send s.pool; sent = suc s.sent })
  add_step :
      (s : System) {n : ℕ}
      → s.sent ≡ suc n
      → Step s (record s { pool = add_task s.pool; sent = n; added = suc s.added })
  run_step :
      (s : System) {n : ℕ}
      → s.added ≡ suc n
      → Step s (record s { pool = raise_running s.pool; added = n; executing = suc s.executing })
  receive_step :
      (s : System) {n : ℕ}
      → s.executing ≡ suc n
      → Step s (record s { pool = receive s.pool; executing = n; received = suc s.received })
  leave_step :
      (s : System) {n : ℕ}
      → s.received ≡ suc n
      → Step s (record s { pool = task_done s.pool; received = n; left = suc s.left })
  lower_step :
      (s : System) {n : ℕ}
      → s.left ≡ suc n
      → Step s (record s { pool = lower_running s.pool; left = n })

pub data Reachable (workers : ℤ) : System → Type 0 where
  at_start : Reachable workers (start workers)
  after : {s t : System} → Reachable workers s → Step s t → Reachable workers t

-- What the fields of the pool count.
abbrev pub IsCounted : System → Type 0
IsCounted s =
    (s.pool.sem ≡ s.sent + s.added + s.executing)
    × (s.pool.sem ≤ s.pool.workers)
    × (s.pool.wg ≡ s.added + s.executing + s.received)
    × (s.pool.running ≡ s.executing + s.received + s.left)

step-IsCounted : {s t : System} → Step s t → IsCounted s → IsCounted t
unfolding send add_task raise_running receive task_done lower_running
step-IsCounted (send_step s h) k = ground arith
step-IsCounted (add_step s h) k = ground arith
step-IsCounted (run_step s h) k = ground arith
step-IsCounted (receive_step s h) k = ground arith
step-IsCounted (leave_step s h) k = ground arith
step-IsCounted (lower_step s h) k = ground arith

step-workers : {s t : System} → Step s t → t.pool.workers ≡ s.pool.workers
unfolding send add_task raise_running receive task_done lower_running
step-workers (send_step s h) = refl
step-workers (add_step s h) = refl
step-workers (run_step s h) = refl
step-workers (receive_step s h) = refl
step-workers (leave_step s h) = refl
step-workers (lower_step s h) = refl

module _ {workers : ℤ} where
  reachable-IsCounted :
      {s : System}
      → Reachable workers s
      → IsCounted s × (s.pool.workers ≡ (new_pool workers).workers)
  unfolding new_pool
  reachable-IsCounted at_start = ((refl, omega arith, refl, refl), refl)
  reachable-IsCounted (after r h) =
      let (k, e) = reachable-IsCounted r in (step-IsCounted h k, step-workers h ∙ e)

  -- Whatever the interleaving of the goroutines, there are at most as many tasks between the send
  -- to the semaphore and the end of the task as the pool has workers; and where Wait returns, no
  -- task of the wait group is left running.
  pub executing-workers :
      {s : System}
      → Reachable workers s
      → (s.sent + s.added + s.executing ≤ (new_pool workers).workers)
        × (wait_returns s.pool ≡ true → s.executing ≡ 0)
  unfolding wait_returns
  executing-workers r = let (k, e) = reachable-IsCounted r in (ground arith, λ h. ground arith)

-- The pool at rest, but for `n` goroutines that have still to lower the counter.
abbrev resting : ℤ → ℕ → System
resting workers n = record {
  pool = record { workers = (new_pool workers).workers; sem = 0; wg = 0; running = n };
  sent = 0;
  added = 0;
  executing = 0;
  received = 0;
  left = n;
}

some_workers : (workers : ℤ) → ltb 0 (new_pool workers).workers ≡ true
unfolding new_pool
some_workers workers = ground arith

resting_reachable : (workers : ℤ) (n : ℕ) → Reachable workers (resting workers n)
unfolding new_pool send add_task raise_running receive task_done
resting_reachable workers zero = at_start
resting_reachable workers (suc n) =
    let r0 = resting_reachable workers n in
    let r1 = after r0 (send_step _ (some_workers workers)) in
    let r2 = after r1 (add_step _ refl) in
    let r3 = after r2 (run_step _ refl) in
    let r4 = after r3 (receive_step _ refl) in after r4 (leave_step _ refl)

-- Running can be any number, whatever the number of workers, when no task runs and Wait returns:
-- the deferred function lowers the counter last.
pub running-wait_returns :
    (workers : ℤ) (n : ℕ)
    → (s : System) × Reachable workers s
      × (s.pool.running ≡ n)
      × (s.executing ≡ 0)
      × (wait_returns s.pool ≡ true)
unfolding wait_returns
running-wait_returns workers n = (resting workers n, resting_reachable workers n, refl, refl, refl)
