-- ===== src/Jobs/Pool.antt =====
-- pantry/jobs/pool.go: the semaphore, the wait group and the counter of the pool, which the sections
-- of `Go` and `TryGo` change one after another, and the futures of `Submit`.
pub mod Tasks
mod Examples
use waffle.Base.{
  ℕ, suc, ◌+◌, ◌-◌, Bool, true, false, Option, none, some, ℤ, pos, pos_part, ltb, eqb, leb_ℤ,
  if◌then◌else◌,
}

-- `sem` is the number of values in the channel, and `workers` its capacity.
pub record Pool : Type 0 where
  pub workers : ℕ
  pub sem : ℕ
  pub wg : ℕ
  pub running : ℕ

unfoldable pub new_pool : ℤ → Pool
new_pool workers = record {
  workers = if leb_ℤ workers (pos 0) then 4 else pos_part workers;
  sem = 0;
  wg = 0;
  running = 0;
}

-- `p.sem <- struct{}{}` goes through where the channel is not full.
abbrev pub can_send : Pool → Bool
can_send p = ltb p.sem p.workers

unfoldable pub send : Pool → Pool
send p = record p { sem = suc p.sem }

-- `p.wg.Add(1)`, and `p.running.Add(1)` with the start of the goroutine.
unfoldable pub add_task : Pool → Pool
add_task p = record p { wg = suc p.wg }

unfoldable pub raise_running : Pool → Pool
raise_running p = record p { running = suc p.running }

-- The deferred function: `<-p.sem`, `p.wg.Done()`, `p.running.Add(-1)`.
unfoldable pub receive : Pool → Pool
receive p = record p { sem = p.sem - 1 }

unfoldable pub task_done : Pool → Pool
task_done p = record p { wg = p.wg - 1 }

unfoldable pub lower_running : Pool → Pool
lower_running p = record p { running = p.running - 1 }

-- `TryGo`, with no other goroutine in between.
unfoldable pub try_go : Pool → Pool × Bool
unfolding send add_task raise_running
try_go p = if can_send p then (raise_running (add_task (send p)), true) else (p, false)

-- `Wait` returns.
unfoldable pub wait_returns : Pool → Bool
wait_returns p = eqb p.wg 0

-- A whole task: it starts, and the deferred function runs, also after a panic.
unfoldable pub finish : Pool → Pool
unfolding receive task_done lower_running
finish p = lower_running (task_done (receive p))

-- How a task of `Submit` ends.
pub data Ending (T : Type 0) (E : Type 0) : Type 0 where
  returned : T → Option E → Ending T E
  panicked : Ending T E

-- `result` is what the goroutine stored before it closed `done`.
pub record Future (T : Type 0) (E : Type 0) : Type 0 where
  pub result : Option (T × Option E)

-- The future when its task has ended: after a panic, which the pool recovers, `done` stays open.
unfoldable pub submitted : {T E : Type 0} → Ending T E → Future T E
submitted (returned v e) = record { result = some (v, e) }
submitted panicked = record { result = none }

unfoldable pub is_ready : {T E : Type 0} → Future T E → Bool
is_ready f = elim f.result [ none ↦ false | some r ↦ true ]
