-- ===== src/Jobs/Pool/Examples.antt =====
-- A pool with two workers.
use waffle.Base.{ℕ, ◌+◌, ◌≤◌, ◌≡◌, refl, true, false, pos, negsuc}
use waffle.Jobs.Pool.{
  Pool, new_pool, can_send, send, add_task, raise_running, receive, task_done, lower_running,
  try_go, finish, wait_returns, panicked, submitted, is_ready,
}
use waffle.Jobs.Pool.Tasks.{
  System, start, send_step, add_step, run_step, Reachable, at_start, after, executing-workers,
}

program : Unit {0}
unfolding new_pool send add_task raise_running receive task_done lower_running try_go finish
    wait_returns submitted is_ready
program = tt

abbrev two : Pool
two = new_pool (pos 2)

-- The third task does not start until one has finished.
full : (try_go (try_go (try_go two).0).0).1 ≡ false
unfolding program
full = refl

free : (try_go (finish (try_go (try_go two).0).0)).1 ≡ true
unfolding program
free = refl

four : (new_pool (negsuc 0)).workers ≡ 4
unfolding program
four = refl

-- A future of a task that panics is never ready.
stuck : is_ready (submitted {T = ℕ} {E = ℕ} panicked) ≡ false
unfolding program
stuck = refl

sendable : can_send (start (pos 2)).pool ≡ true
unfolding program
sendable = refl

one_running : (s : System) × Reachable (pos 2) s
one_running =
    (_, after (after (after at_start (send_step _ sendable)) (add_step _ refl)) (run_step _ refl))

executing-workers_example :
    (one_running.0.sent + one_running.0.added + one_running.0.executing
      ≤ (new_pool (pos 2)).workers)
    × (wait_returns one_running.0.pool ≡ true → one_running.0.executing ≡ 0)
executing-workers_example = executing-workers one_running.1
