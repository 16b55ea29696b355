-- ===== src/Jobs/History/Durations.antt =====
-- The statistics of a job: counts, and the average between the shortest and the longest duration.
use native.Mathlib.Nat.{div-le_self, div-one}
use mathlib.Core.Path.{subst}
use waffle.Base.{
  ℕ, suc, ◌+◌, ◌<◌, ◌≡◌, sym, refl, true, ◌||◌, List, [], ◌∷◌, All, ℤ, pos, negsuc, ◌≤ℤ◌, ◌<ℤ◌,
  ◌+ℤ◌, ◌-ℤ◌, quot, ltb_ℤ, eqb_ℤ, ltb, if◌then◌else◌, String, ◌==◌, comparable_string, lookup,
  insert, lookup-insert, arith, int_laws, Bool-cases, inl, inr,
}
use waffle.Jobs.History.{
  JobExecution, JobStatus, pending, running, completed, failed, skipped, cancelled, JobStats,
  Memory, History, new_history, stats_of, or_new, record_start, add_execution, record_complete,
  update_duration_stats, count_status, get_stats,
}
use waffle.Jobs.History.Recent.{Event, start_event, complete_event, run}

quot_between :
    (x : ℤ) (n : ℕ)
    → (pos 0 ≤ℤ x → (pos 0 ≤ℤ quot x n) × (quot x n ≤ℤ x))
      × (x ≤ℤ pos 0 → (x ≤ℤ quot x n) × (quot x n ≤ℤ pos 0))
unfolding quot
quot_between (pos a) n =
    let small = div-le_self a n in
    (λ h. (omega arith, omega arith), λ h. (omega arith, omega arith))
quot_between (negsuc a) n =
    let small = div-le_self (suc a) n in
    (λ h. (ground arith, ground arith), λ h. (ground arith, ground arith))

quot_one : (x : ℤ) → quot x 1 ≡ x
unfolding quot
quot_one (pos a) = rw (div-one a) refl
quot_one (negsuc a) = rw (div-one (suc a)) (ground arith)

-- The average after `d` lies between that before and `d`.
average_between :
    (a d : ℤ) (n : ℕ)
    → let b = a +ℤ quot (d -ℤ a) n in
      (a ≤ℤ d → (a ≤ℤ b) × (b ≤ℤ d)) × (d ≤ℤ a → (d ≤ℤ b) × (b ≤ℤ a))
average_between a d n =
    let q = quot_between (d -ℤ a) n in
    (
      λ h. let (low, high) = q.0 (omega int_laws) in (omega int_laws, omega int_laws),
      λ h. let (low, high) = q.1 (omega int_laws) in (omega int_laws, omega int_laws),
    )

first_average : (d : ℤ) → pos 0 +ℤ quot (d -ℤ pos 0) 1 ≡ d
first_average d = rw (quot_one (d -ℤ pos 0)) (omega int_laws)

abbrev shorter : ℤ → ℤ → ℤ
shorter d m = if eqb_ℤ m (pos 0) || ltb_ℤ d m then d else m

abbrev longer : ℤ → ℤ → ℤ
longer d m = if ltb_ℤ m d then d else m

between_first :
    (d m a l : ℤ)
    → m ≡ pos 0
    → a ≡ pos 0
    → l ≡ pos 0
    → pos 0 <ℤ d
    → let b = a +ℤ quot (d -ℤ a) 1 in
      (shorter d m ≤ℤ b) × (b ≤ℤ longer d l) × (pos 0 <ℤ shorter d m)
between_first d m a l e f g h =
    rw (e, f, g, first_average d) (ground arith, ground arith, ground arith)

between_next :
    (d m a l : ℤ) (n : ℕ)
    → m ≤ℤ a
    → a ≤ℤ l
    → pos 0 <ℤ m
    → pos 0 <ℤ d
    → let b = a +ℤ quot (d -ℤ a) n in
      (shorter d m ≤ℤ b) × (b ≤ℤ longer d l) × (pos 0 <ℤ shorter d m)
between_next d m a l n e f g h =
    let (up, down) = average_between a d n in (ground arith, ground arith, ground arith)

-- The average lies between the shortest and the longest duration, which are positive from the first
-- execution on.
abbrev pub IsBetween : JobStats → Type 0
IsBetween s =
    (s.min_duration ≤ℤ s.average_duration)
    × (s.average_duration ≤ℤ s.max_duration)
    × (0 < s.successful_executions + s.failed_executions → pos 0 <ℤ s.min_duration)
    × (s.successful_executions + s.failed_executions ≡ 0
        → (s.min_duration ≡ pos 0) × (s.average_duration ≡ pos 0) × (s.max_duration ≡ pos 0))

update-IsBetween :
    (d : ℤ) (s : JobStats) (ok bad : ℕ)
    → pos 0 <ℤ d
    → IsBetween s
    → ok + bad ≡ suc (s.successful_executions + s.failed_executions)
    → IsBetween
        (update_duration_stats d (record s { successful_executions = ok; failed_executions = bad }))
unfolding update_duration_stats
update-IsBetween d s ok bad h (low, high, some_, none_) e =
    let positive : ltb 0 (ok + bad) ≡ true = ground arith in
    elim (Bool-cases (ltb 0 (s.successful_executions + s.failed_executions))) [
      | inl t ↦
          let (l, g, m) =
            between_next d s.min_duration s.average_duration s.max_duration (ok + bad) low high
              (some_ (ground arith)) h in
          rw positive (l, g, λ _. m, λ z. absurd (omega arith))
      | inr t ↦
          let count : ok + bad ≡ 1 = ground arith in
          let (m0, a0, l0) = none_ (ground arith) in
          let (l, g, m) =
            between_first d s.min_duration s.average_duration s.max_duration m0 a0 l0 h in
          rw (positive, count) (l, g, λ _. m, λ z. absurd (omega arith))
    ]

count_status-IsBetween :
    (status : JobStatus) (exec : JobExecution) (s : JobStats)
    → pos 0 <ℤ exec.duration
    → IsBetween s
    → IsBetween (count_status status exec s)
unfolding count_status update_duration_stats
count_status-IsBetween completed exec s h k =
    update-IsBetween exec.duration s (s.successful_executions + 1) s.failed_executions h k
      (omega arith)
count_status-IsBetween failed exec s h k =
    update-IsBetween exec.duration s s.successful_executions (s.failed_executions + 1) h k
      (omega arith)
count_status-IsBetween skipped exec s h k = k
count_status-IsBetween pending exec s h k = k
count_status-IsBetween running exec s h k = k
count_status-IsBetween cancelled exec s h k = k

-- A completed or failed execution takes some time.
abbrev pub TakesTime : Event → Type 0
TakesTime (start_event p) = Unit
TakesTime (complete_event exec) = pos 0 <ℤ exec.duration

module _ (job : String) where
  -- What holds of the statistics that are stored and of those of the job before holds of those
  -- after.
  insert_stats :
      (P : JobStats → Type 0) (name : String) (s : JobStats) (h : History)
      → P (or_new job (lookup job h.stats))
      → ((name ≡ job) → P s)
      → P (or_new job (lookup job (insert name s h.stats)))
  insert_stats P name s h k f = elim (Bool-cases (name == job)) [
    | inl e ↦ rw (lookup-insert name job s h.stats, e) (f ((comparable_string.equals_iff _ _).0 e))
    | inr e ↦ rw (lookup-insert name job s h.stats, e) k
  ]

  stats_there :
      (P : JobStats → Type 0) (name : String) (h : History)
      → P (stats_of job h)
      → name ≡ job
      → P (stats_of name h)
  stats_there P name h k e = subst (λ j. P (stats_of j h)) (sym e) k

  start-IsBetween :
      (p : ℕ) (h : History)
      → IsBetween (stats_of job h)
      → IsBetween (stats_of job (record_start p h))
  unfolding record_start stats_of add_execution
  start-IsBetween p h k =
      let name = (h.memory p).job_name in
      insert_stats IsBetween name _ h k (λ e. stats_there IsBetween name h k e)

  complete-IsBetween :
      (exec : JobExecution) (h : History)
      → pos 0 <ℤ exec.duration
      → IsBetween (stats_of job h)
      → IsBetween (stats_of job (record_complete exec h))
  unfolding record_complete stats_of
  complete-IsBetween exec h d k = insert_stats IsBetween exec.job_name _ h k (λ e.
      count_status-IsBetween exec.status exec (stats_of exec.job_name h) d
        (stats_there IsBetween exec.job_name h k e))

  run-IsBetween :
      (es : List Event) (h : History)
      → All TakesTime es
      → IsBetween (stats_of job h)
      → IsBetween (stats_of job (run es h))
  unfolding run
  run-IsBetween [] h t k = k
  run-IsBetween (start_event p ∷ es) h (_, ts) k =
      run-IsBetween es (record_start p h) ts (start-IsBetween p h k)
  run-IsBetween (complete_event exec ∷ es) h (t, ts) k =
      run-IsBetween es (record_complete exec h) ts (complete-IsBetween exec h t k)

  -- After any starts and completions that take some time, on a new store: the average duration of
  -- a job lies between its shortest and its longest, and the shortest is positive once an
  -- execution has completed or failed.
  pub get_stats-IsBetween :
      (max : ℤ) (memory : Memory) (es : List Event)
      → All TakesTime es
      → IsBetween (get_stats job (run es (new_history max memory)))
  unfolding get_stats stats_of new_history lookup
  get_stats-IsBetween max memory es t =
      run-IsBetween es (new_history max memory) t
        (omega arith, omega arith, λ h. absurd (omega arith), λ h. (refl, refl, refl))
