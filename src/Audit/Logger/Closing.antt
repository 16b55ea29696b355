-- ===== src/Audit/Logger/Closing.antt =====
-- pantry/audit/audit.go: what becomes of the events in the buffer when the logger closes.
use mathlib.Core.List.{append_assoc, Perm}
use mathlib.Core.List.Perm
use waffle.Base.{
  ◌≤◌, ◌<◌, ◌≡◌, refl, ap, sym, ◌∙◌, ◌⊎◌, true, Bool-cases, inl, inr, Option, List, [], ◌∷◌, ◌++◌,
  map, append-nil, ltb, length, arith,
}
use waffle.Audit.Logger.{
  LogError, AuditLogger, Config, result_of, process_event, log, log_async, Works, takes, ends,
  returns, Calls, logs, logs_async, closes, Run, at_end, worker, caller,
}

module _ {E : Type 0} (config : Config E) where
  -- The events with their results.
  abbrev pub results : List E → List (E × Option LogError)
  results es = map (λ e. (e, result_of config e)) es

  -- Those that were processed, those that workers have, and those of the buffer.
  ledger : AuditLogger E → List (E × Option LogError)
  ledger l = l.finished ++ (results l.taken ++ results l.queue)

  -- Each event that is taken has a worker, and the buffer has one unless it is empty.
  IsStaffed : AuditLogger E → Type 0
  IsStaffed l = (length l.taken ≤ l.running) × ((1 ≤ l.running) ⊎ (l.queue ≡ []))

  Works-stopped :
      {l m : AuditLogger E}
      → Works config l m
      → l.running ≡ 0
      → (m.running ≡ 0) × (m.queue ≡ l.queue)
  unfolding process_event
  Works-stopped (takes h same) e = absurd (omega arith)
  Works-stopped (ends x earlier others same) e = (e, refl)
  Works-stopped (returns h done empty) e = absurd (omega arith)

  -- The buffer of a logger without workers only grows.
  Calls-stopped :
      {l m : AuditLogger E}
      → Calls config l m
      → l.running ≡ 0
      → (m.running ≡ 0) × ((rest : List E) × (m.queue ≡ l.queue ++ rest))
  unfolding log process_event log_async
  Calls-stopped {l} (logs e) h = (h, ([], sym (append-nil l.queue)))
  Calls-stopped {l} (logs_async e) h = elim (Bool-cases (ltb (length l.queue) l.capacity)) [
    | inl room ↦ rw (room, log_async) (h, (e ∷ [], refl))
    | inr full ↦ rw (full, log_async) (h, ([], sym (append-nil l.queue)))
  ]
  Calls-stopped {l} (closes was_open) h = (h, ([], sym (append-nil l.queue)))

  Run-stopped :
      {l m : AuditLogger E}
      → Run config l m
      → l.running ≡ 0
      → (rest : List E) × (m.queue ≡ l.queue ++ rest)
  Run-stopped {l} at_end h = ([], sym (append-nil l.queue))
  Run-stopped {l} (worker w r) h =
      let (stopped, same) = Works-stopped w h in
      let (rest, e) = Run-stopped r stopped in (rest, e ∙ ap (λ q. q ++ rest) same)
  Run-stopped {l} (caller c r) h =
      let (stopped, (some_more, e)) = Calls-stopped c h in
      let (others, e') = Run-stopped r stopped in
      (some_more ++ others, e' ∙ ap (λ q. q ++ others) e ∙ append_assoc l.queue some_more others)

  -- An event that is logged asynchronously once the workers have returned, with room in the
  -- buffer, stays in the buffer for good: whatever anyone does then, no worker ever takes it.
  pub log_async-lost :
      (l m : AuditLogger E) (e : E)
      → l.running ≡ 0
      → length l.queue < l.capacity
      → Run config (log_async config e l) m
      → (rest : List E) × (m.queue ≡ l.queue ++ e ∷ rest)
  unfolding log_async
  log_async-lost l m e h room r =
      let enough : ltb (length l.queue) l.capacity ≡ true = ground arith in
      let after : AuditLogger E = record l { queue = l.queue ++ e ∷ [] } in
      let r' : Run config after m = rw (enough, log_async) at r in
      let (rest, e') = Run-stopped r' h in (rest, e' ∙ append_assoc l.queue (e ∷ []) rest)
