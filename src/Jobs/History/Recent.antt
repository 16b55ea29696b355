-- ===== src/Jobs/History/Recent.antt =====
-- The executions that the store keeps of a job are the latest ones.
use waffle.Base.{
  ℕ, zero, suc, ◌≤◌, ◌≡◌, ◌∙◌, sym, ap, refl, Bool, true, false, Option, none, some, List, [], ◌∷◌,
  ◌++◌, ℤ, pos, ltb, eqb, eqb_iff, length, take_first, reverse_onto, reverse_onto-append,
  append-nil, reverse_onto-reverse_onto, length-reverse_onto, take_first-suc, take_first-all,
  length-take_first, if◌then◌else◌, String, ◌==◌, comparable_string, lookup, lookup-insert, arith,
  Bool-cases, inl, inr, ltb_ℤ,
}
use waffle.Jobs.History.{
  JobExecution, Memory, History, new_history, executions_of, drop_first, add_execution,
  record_start, record_complete, write_stored, get_executions, found,
}

drop_first-reverse_onto :
    (n : ℕ) (xs acc : List ℕ)
    → length xs ≡ suc n
    → drop_first (reverse_onto xs acc) ≡ reverse_onto (take_first n xs) acc
unfolding reverse_onto
drop_first-reverse_onto n [] acc h = absurd (omega (arith, h))
drop_first-reverse_onto zero (x ∷ []) acc h = refl
drop_first-reverse_onto (suc n) (x ∷ []) acc h = absurd (omega arith)
drop_first-reverse_onto zero (x ∷ y ∷ xs) acc h = absurd (omega arith)
drop_first-reverse_onto (suc n) (x ∷ y ∷ xs) acc h =
    drop_first-reverse_onto n (y ∷ xs) (x ∷ acc) (omega arith)

-- The executions of a job without the oldest, where they are more than `max`.
abbrev trimmed : ℕ → List ℕ → List ℕ
trimmed max ps = if ltb max (length ps) then drop_first ps else ps

trim_reversed :
    (max : ℕ) (ps : List ℕ)
    → length ps ≤ suc max
    → trimmed max (reverse_onto ps []) ≡ reverse_onto (take_first max ps) []
trim_reversed max ps h =
    let size : length (reverse_onto ps []) ≡ length ps = omega (arith, length-reverse_onto ps []) in
    elim (Bool-cases (ltb max (length ps))) [
      | inl e ↦ rw (size, e) (drop_first-reverse_onto max ps [] (ground arith))
      | inr e ↦
          rw (size, e) (ap (λ r. reverse_onto r []) (sym (take_first-all max ps (ground arith))))
    ]

trim_lem :
    (max p : ℕ) (recent : List ℕ)
    → trimmed max (reverse_onto (take_first max recent) [] ++ (p ∷ []))
      ≡ reverse_onto (take_first max (p ∷ recent)) []
unfolding reverse_onto
trim_lem max p recent =
    let kept = take_first max recent in
    ap (trimmed max) (sym (reverse_onto-append kept [] (p ∷ [])))
    ∙ (trim_reversed max (p ∷ kept) (omega (arith, length-take_first max recent))
        ∙ ap (λ r. reverse_onto r []) (take_first-suc max p recent))

pub data Event : Type 0 where
  start_event : ℕ → Event
  complete_event : JobExecution → Event

unfoldable pub step : Event → History → History
unfolding record_start record_complete
step (start_event p) h = record_start p h
step (complete_event exec) h = record_complete exec h

unfoldable pub run : List Event → History → History
unfolding step
run [] h = h
run (e ∷ es) h = run es (step e h)

-- The executions of a job that were started, the latest one first, before those in `earlier`.
unfoldable pub started : Memory → String → List Event → List ℕ → List ℕ
started memory job [] earlier = earlier
started memory job (start_event p ∷ es) earlier =
    started memory job es (if (memory p).job_name == job then p ∷ earlier else earlier)
started memory job (complete_event exec ∷ es) earlier = started memory job es earlier

if_true : {A : Type 0} (b : Bool) (x y : A) → b ≡ true → (if b then x else y) ≡ x
if_true b x y h = rw h refl

if_false : {A : Type 0} (b : Bool) (x y : A) → b ≡ false → (if b then x else y) ≡ y
if_false b x y h = rw h refl

module _ (memory : Memory) (job : String) (max : ℕ) where
  -- What the store has of a job after the starts in `recent`; the executions keep their jobs.
  abbrev IsRecent : List ℕ → History → Type 0
  IsRecent recent h =
      (executions_of job h ≡ reverse_onto (take_first max recent) [])
      × (h.max_per_job ≡ max)
      × ((p : ℕ) → (h.memory p).job_name ≡ (memory p).job_name)

  executions_of-add_execution :
      (p : ℕ) (exec : JobExecution) (h : History)
      → executions_of job (add_execution p exec h) ≡ (
          if exec.job_name == job
          then trimmed h.max_per_job (executions_of exec.job_name h ++ (p ∷ []))
          else executions_of job h)
  unfolding add_execution
  executions_of-add_execution p exec h =
      let execs = executions_of exec.job_name h ++ (p ∷ []) in
      elim (Bool-cases (ltb h.max_per_job (length execs))) [
        | inl e ↦ elim (Bool-cases (exec.job_name == job)) [
          | inl f ↦ rw (e, lookup-insert exec.job_name job (drop_first execs) h.executions, f) refl
          | inr f ↦ rw (e, lookup-insert exec.job_name job (drop_first execs) h.executions, f) refl
        ]
        | inr e ↦ elim (Bool-cases (exec.job_name == job)) [
          | inl f ↦ rw (e, lookup-insert exec.job_name job execs h.executions, f) refl
          | inr f ↦ rw (e, lookup-insert exec.job_name job execs h.executions, f) refl
        ]
      ]

  add_execution-same :
      (p : ℕ) (exec : JobExecution) (h : History)
      → ((add_execution p exec h).memory ≡ h.memory)
        × ((add_execution p exec h).max_per_job ≡ h.max_per_job)
  unfolding add_execution
  add_execution-same p exec h =
      elim (Bool-cases (ltb h.max_per_job (length (executions_of exec.job_name h ++ (p ∷ []))))) [
        | inl e ↦ rw e (refl, refl)
        | inr e ↦ rw e (refl, refl)
      ]

  start-IsRecent :
      (p : ℕ) (recent : List ℕ) (h : History)
      → IsRecent recent h
      → IsRecent (if (memory p).job_name == job then p ∷ recent else recent) (record_start p h)
  unfolding record_start
  start-IsRecent p recent h (execs, bound, names) =
      let exec = h.memory p in
      let (memory_same, bound_same) = add_execution-same p exec h in
      let kept : (q : ℕ) → ((add_execution p exec h).memory q).job_name ≡ (memory q).job_name =
        λ q. rw memory_same (names q) in
      let added = executions_of-add_execution p exec h in
      elim (Bool-cases ((memory p).job_name == job)) [
        | inl e ↦
            let same : exec.job_name ≡ job = names p ∙ (comparable_string.equals_iff _ _).0 e in
            let now : executions_of job (add_execution p exec h)
                ≡ reverse_onto (take_first max (p ∷ recent)) [] =
              added
              ∙ (if_true (exec.job_name == job) _ (executions_of job h) (rw (names p) e)
                  ∙ (ap (λ b. trimmed b (executions_of exec.job_name h ++ (p ∷ []))) bound
                      ∙ (ap (λ j. trimmed max (executions_of j h ++ (p ∷ []))) same
                          ∙ (ap (λ ps. trimmed max (ps ++ (p ∷ []))) execs
                              ∙ trim_lem max p recent)))) in
            rw e (now, bound_same ∙ bound, kept)
        | inr e ↦
            let now : executions_of job (add_execution p exec h)
                ≡ reverse_onto (take_first max recent) [] =
              added
              ∙ (if_false (exec.job_name == job)
                    (trimmed h.max_per_job (executions_of exec.job_name h ++ (p ∷ []))) _
                    (rw (names p) e)
                  ∙ execs) in
            rw e (now, bound_same ∙ bound, kept)
      ]

  write-job_name :
      (o : Option ℕ) (exec : JobExecution) (m : Memory) (q : ℕ)
      → (write_stored o exec m q).job_name ≡ (m q).job_name
  write-job_name none exec m q = refl
  write-job_name (some p) exec m q = elim (Bool-cases (eqb q p)) [
    | inl e ↦ rw e (ap (λ r. (m r).job_name) (sym ((eqb_iff q p).0 e)))
    | inr e ↦ rw e refl
  ]

  complete-IsRecent :
      (exec : JobExecution) (recent : List ℕ) (h : History)
      → IsRecent recent h
      → IsRecent recent (record_complete exec h)
  unfolding record_complete
  complete-IsRecent exec recent h (execs, bound, names) =
      (execs, bound, λ q. write-job_name (lookup exec.id h.by_id) exec h.memory q ∙ names q)

  run-IsRecent :
      (es : List Event) (recent : List ℕ) (h : History)
      → IsRecent recent h
      → IsRecent (started memory job es recent) (run es h)
  unfolding run started
  run-IsRecent [] recent h k = k
  run-IsRecent (start_event p ∷ es) recent h k =
      run-IsRecent es (if (memory p).job_name == job then p ∷ recent else recent) (record_start p h)
        (start-IsRecent p recent h k)
  run-IsRecent (complete_event exec ∷ es) recent h (execs, bound, names) =
      run-IsRecent es recent (record_complete exec h)
        (complete-IsRecent exec recent h (execs, bound, names))

take_first-none : (n : ℕ) → take_first {A = ℕ} n [] ≡ []
take_first-none zero = refl
take_first-none (suc n) = refl

nil_of_length : (xs : List ℕ) → length xs ≡ 0 → xs ≡ []
nil_of_length [] h = refl
nil_of_length (x ∷ xs) h = absurd (omega arith)

get_executions_lem :
    (h : History) (job : String) (kept : List ℕ) (limit : ℕ)
    → executions_of job h ≡ reverse_onto kept []
    → get_executions job (pos limit) h ≡ found (take_first limit kept)
unfolding get_executions reverse_onto
get_executions_lem h job kept limit e =
    let back : reverse_onto (executions_of job h) [] ≡ kept =
      ap (λ ps. reverse_onto ps []) e ∙ (reverse_onto-reverse_onto kept [] [] ∙ append-nil kept) in
    let size : length (executions_of job h) ≡ length kept =
      ap length e ∙ omega (arith, length-reverse_onto kept []) in
    let sign : ltb_ℤ (pos limit) (pos 0) ≡ false = ground arith in
    elim (Bool-cases (eqb (length (executions_of job h)) 0)) [
      | inl z ↦
          let empty : kept ≡ [] = nil_of_length kept (sym size ∙ (eqb_iff _ _).0 z) in
          rw (z, empty, take_first-none limit) refl
      | inr n ↦ rw (n, sign, back) refl
    ]

-- After any starts and completions on a new store, GetExecutions with a limit that is not negative
-- gives the executions of the job that were started, the latest one first, up to the limit and to
-- the number that the store keeps of a job.
pub get_executions-run :
    (memory : Memory) (job : String) (max : ℤ) (limit : ℕ) (es : List Event)
    → let h = new_history max memory in
      get_executions job (pos limit) (run es h)
      ≡ found (take_first limit (take_first h.max_per_job (started memory job es [])))
unfolding new_history lookup reverse_onto
get_executions-run memory job max limit es =
    let h = new_history max memory in
    let start : IsRecent memory job h.max_per_job [] h =
      (ap (λ r. reverse_onto r []) (sym (take_first-none h.max_per_job)), refl, λ p. refl) in
    get_executions_lem (run es h) job _ limit
      (run-IsRecent memory job h.max_per_job es [] h start).0
