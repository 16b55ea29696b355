-- ===== src/Jobs/History/Examples.antt =====
-- Three executions of a job in a store that keeps two.
use waffle.Base.{
  ℕ, zero, suc, ◌≡◌, refl, none, List, [], ◌∷◌, All, pos, negsuc, ◌+ℤ◌, ◌-ℤ◌, quot, lookup, insert,
  erase, comparable_string, String, take_first, reverse_onto, arith,
}
use waffle.Jobs.History.{
  completed, running, Memory, History, found, panics, new_history, add_execution, stats_of,
  record_start, record_complete, count_status, update_duration_stats, get_executions, get_execution,
  get_stats, cleanup_history, keep_all, keep_after, forget_all, forget_before,
}
use waffle.Jobs.History.Recent.{
  Event, start_event, complete_event, step, run, started, get_executions-run,
}
use waffle.Jobs.History.Durations.{IsBetween, TakesTime, get_stats-IsBetween}

program : Unit {0}
unfolding new_history add_execution stats_of record_start record_complete count_status
    update_duration_stats get_executions get_execution get_stats cleanup_history keep_all keep_after
    forget_all forget_before step run started lookup insert erase reverse_onto ◌+ℤ◌ ◌-ℤ◌ quot
program = tt

abbrev id_of : ℕ → String
id_of zero = "a"
id_of (suc zero) = "b"
id_of (suc (suc n)) = "c"

abbrev memory : Memory
memory n = record {
  id = id_of n;
  job_name = "mail";
  status = running;
  started_at = pos n;
  completed_at = none;
  duration = pos 0;
  error = "";
}

abbrev done : ℕ → ℕ → Event
done n d = complete_event (record (memory n) { status = completed; duration = pos d })

abbrev events : List Event
events = start_event 0 ∷ done 0 5 ∷ start_event 1 ∷ start_event 2 ∷ done 1 8 ∷ done 2 9 ∷ []

abbrev kept : History
kept = run events (new_history (pos 2) memory)

-- The first execution is gone, from both maps.
first_gone : get_execution "a" kept ≡ none
unfolding program
first_gone = refl

latest : get_executions "mail" (pos 10) kept ≡ found (2 ∷ 1 ∷ [])
unfolding program
latest = refl

-- A limit below 0.
negative : get_executions "mail" (negsuc 0) kept ≡ panics
unfolding program
negative = refl

average : (get_stats "mail" kept).average_duration ≡ pos 7
unfolding program
average = refl

-- An execution that took no time is not the shortest.
no_time :
    (get_stats "mail" (run (done 0 0 ∷ done 1 10 ∷ []) (new_history (pos 2) memory))).min_duration
    ≡ pos 10
unfolding program
no_time = refl

-- The executions after time 1.
cleaned : get_executions "mail" (pos 10) (cleanup_history (pos 3) (pos 2) kept) ≡ found (2 ∷ [])
unfolding program
cleaned = refl

cleaned_id : get_execution "b" (cleanup_history (pos 3) (pos 2) kept) ≡ none
unfolding program
cleaned_id = refl

get_executions-run_example :
    get_executions "mail" (pos 1) kept
    ≡ found (
        take_first 1
          (take_first (new_history (pos 2) memory).max_per_job (started memory "mail" events [])))
get_executions-run_example = get_executions-run memory "mail" (pos 2) 1 events

take_time : All TakesTime events
take_time = (tt, (omega arith, (tt, (tt, (omega arith, (omega arith, tt))))))

get_stats-IsBetween_example : IsBetween (get_stats "mail" kept)
get_stats-IsBetween_example = get_stats-IsBetween "mail" (pos 2) memory events take_time
