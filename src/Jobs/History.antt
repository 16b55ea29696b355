-- ===== src/Jobs/History.antt =====
-- MemoryHistoryStore of pantry/jobs/history.go. The two maps of the store share pointers to the
-- executions: a pointer is a number, and the memory gives the execution that it points to.
pub mod Recent
pub mod Durations
mod Examples
use waffle.Base.{
  ℕ, zero, suc, ◌+◌, Bool, true, false, ◌||◌, ◌&&◌, not, Option, none, some, List, [], ◌∷◌, ◌++◌,
  map, ℤ, pos, pos_part, ltb_ℤ, leb_ℤ, eqb_ℤ, ◌+ℤ◌, ◌-ℤ◌, quot, ltb, eqb, length, take_first,
  reverse_onto, if◌then◌else◌, String, comparable_string, Map, lookup, insert, erase,
}

pub data JobStatus : Type 0 where
  pending running completed failed skipped cancelled : JobStatus

-- The fields that the store reads. A nil time is none.
pub record JobExecution : Type 0 where
  pub id : String
  pub job_name : String
  pub status : JobStatus
  pub started_at : ℤ
  pub completed_at : Option ℤ
  pub duration : ℤ
  pub error : String

pub record JobStats : Type 0 where
  pub job_name : String
  pub total_executions : ℕ
  pub successful_executions : ℕ
  pub failed_executions : ℕ
  pub skipped_executions : ℕ
  pub last_execution : Option ℤ
  pub last_success : Option ℤ
  pub last_failure : Option ℤ
  pub last_error : String
  pub average_duration : ℤ
  pub min_duration : ℤ
  pub max_duration : ℤ

abbrev pub Memory : Type 0
Memory = ℕ → JobExecution

pub record History : Type 0 where
  pub memory : Memory
  pub executions : Map String (List ℕ)
  pub by_id : Map String ℕ
  pub stats : Map String JobStats
  pub max_per_job : ℕ

unfoldable pub new_history : ℤ → Memory → History
new_history max memory = record {
  memory = memory;
  executions = [];
  by_id = [];
  stats = [];
  max_per_job = if leb_ℤ max (pos 0) then 100 else pos_part max;
}

-- `s.executions[jobName]`
abbrev pub or_nil : Option (List ℕ) → List ℕ
or_nil none = []
or_nil (some ps) = ps

abbrev pub executions_of : String → History → List ℕ
executions_of job h = or_nil (lookup job h.executions)

abbrev pub new_stats : String → JobStats
new_stats job = record {
  job_name = job;
  total_executions = 0;
  successful_executions = 0;
  failed_executions = 0;
  skipped_executions = 0;
  last_execution = none;
  last_success = none;
  last_failure = none;
  last_error = "";
  average_duration = pos 0;
  min_duration = pos 0;
  max_duration = pos 0;
}

abbrev pub or_new : String → Option JobStats → JobStats
or_new job none = new_stats job
or_new job (some s) = s

unfoldable pub stats_of : String → History → JobStats
stats_of job h = or_new job (lookup job h.stats)

abbrev pub drop_first : List ℕ → List ℕ
drop_first [] = []
drop_first (p ∷ ps) = ps

-- `delete(s.byID, old.ID)` for the oldest execution.
abbrev pub forget_first : Memory → List ℕ → Map String ℕ → Map String ℕ
forget_first memory [] by_id = by_id
forget_first memory (p ∷ ps) by_id = erase (memory p).id by_id

-- The store of an execution, with the oldest of its job removed where they are too many.
unfoldable pub add_execution : ℕ → JobExecution → History → History
add_execution p exec h =
    let by_id = insert exec.id p h.by_id in
    let execs = executions_of exec.job_name h ++ (p ∷ []) in
    if ltb h.max_per_job (length execs)
    then record h {
      by_id = forget_first h.memory execs by_id;
      executions = insert exec.job_name (drop_first execs) h.executions;
    }
    else record h { by_id = by_id; executions = insert exec.job_name execs h.executions }

-- `RecordStart(exec)` for the pointer `p`.
unfoldable pub record_start : ℕ → History → History
unfolding add_execution stats_of
record_start p h =
    let exec = h.memory p in
    let stats = stats_of exec.job_name h in
    record (add_execution p exec h) {
      stats =
          insert exec.job_name
            (record stats {
              total_executions = stats.total_executions + 1;
              last_execution = some exec.started_at;
            })
            h.stats;
    }

unfoldable pub update_duration_stats : ℤ → JobStats → JobStats
update_duration_stats duration s =
    let total = s.successful_executions + s.failed_executions in
    record s {
      min_duration =
          if eqb_ℤ s.min_duration (pos 0) || ltb_ℤ duration s.min_duration
          then duration
          else s.min_duration;
      max_duration = if ltb_ℤ s.max_duration duration then duration else s.max_duration;
      average_duration =
          if ltb 0 total
          then s.average_duration +ℤ quot (duration -ℤ s.average_duration) total
          else s.average_duration;
    }

-- The switch over the status.
unfoldable pub count_status : JobStatus → JobExecution → JobStats → JobStats
unfolding update_duration_stats
count_status completed exec s = update_duration_stats exec.duration (record s {
  successful_executions = s.successful_executions + 1;
  last_success = exec.completed_at;
})
count_status failed exec s = update_duration_stats exec.duration (record s {
  failed_executions = s.failed_executions + 1;
  last_failure = exec.completed_at;
  last_error = exec.error;
})
count_status skipped exec s = record s { skipped_executions = s.skipped_executions + 1 }
count_status _ exec s = s

-- The memory after an assignment to the fields of a stored execution.
abbrev pub write : ℕ → JobExecution → Memory → Memory
write p exec memory q =
    if eqb q p
    then record (memory p) {
      status = exec.status;
      completed_at = exec.completed_at;
      duration = exec.duration;
      error = exec.error;
    }
    else memory q

abbrev pub write_stored : Option ℕ → JobExecution → Memory → Memory
write_stored none exec memory = memory
write_stored (some p) exec memory = write p exec memory

unfoldable pub record_complete : JobExecution → History → History
unfolding stats_of count_status
record_complete exec h =
    let stats = stats_of exec.job_name h in
    record h {
      memory = write_stored (lookup exec.id h.by_id) exec h.memory;
      stats = insert exec.job_name (count_status exec.status exec stats) h.stats;
    }

-- A list of pointers, or a panic: `make` refuses a negative capacity.
pub data Executions : Type 0 where
  panics : Executions
  found : List ℕ → Executions

unfoldable pub get_executions : String → ℤ → History → Executions
get_executions job limit h =
    let execs = executions_of job h in
    if eqb (length execs) 0
    then found []
    else (if ltb_ℤ limit (pos 0)
        then panics
        else found (take_first (pos_part limit) (reverse_onto execs [])))

unfoldable pub get_execution : String → History → Option ℕ
get_execution id h = lookup id h.by_id

unfoldable pub get_stats : String → History → JobStats
unfolding stats_of
get_stats job h = stats_of job h

-- The executions of a job that started after the cutoff, and the IDs without the others.
unfoldable pub keep_after : ℤ → Memory → List ℕ → List ℕ
keep_after cutoff memory [] = []
keep_after cutoff memory (p ∷ ps) =
    let rest = keep_after cutoff memory ps in
    if ltb_ℤ cutoff (memory p).started_at then p ∷ rest else rest

unfoldable pub forget_before : ℤ → Memory → List ℕ → Map String ℕ → Map String ℕ
forget_before cutoff memory [] by_id = by_id
forget_before cutoff memory (p ∷ ps) by_id =
    let rest = forget_before cutoff memory ps in
    if ltb_ℤ cutoff (memory p).started_at then rest by_id else rest (erase (memory p).id by_id)

-- The loops of `Cleanup` over the jobs.
unfoldable pub keep_all : ℤ → Memory → Map String (List ℕ) → Map String (List ℕ)
unfolding keep_after
keep_all cutoff memory [] = []
keep_all cutoff memory ((job, ps) ∷ more) =
    (job, keep_after cutoff memory ps) ∷ keep_all cutoff memory more

unfoldable pub forget_all : ℤ → Memory → Map String (List ℕ) → Map String ℕ → Map String ℕ
unfolding forget_before
forget_all cutoff memory [] by_id = by_id
forget_all cutoff memory ((job, ps) ∷ more) by_id =
    forget_all cutoff memory more (forget_before cutoff memory ps by_id)

-- `now - max_age` is the cutoff.
unfoldable pub cleanup_history : ℤ → ℤ → History → History
unfolding keep_all forget_all
cleanup_history now max_age h =
    let cutoff = now -ℤ max_age in
    record h {
      executions = keep_all cutoff h.memory h.executions;
      by_id = forget_all cutoff h.memory h.executions h.by_id;
    }
