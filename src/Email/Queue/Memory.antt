-- ===== src/Email/Queue/Memory.antt =====
-- MemoryQueueStore. The copies that its methods make keep callers from writing to what it stores.
use waffle.Base.{
  ℕ, suc, Bool, true, false, ◌&&◌, ◌||◌, not, Option, none, some, ◌⊎◌, inl, inr, List, [], ◌∷◌,
  String, comparable_string, ℤ, pos, ltb_ℤ, leb_ℤ, eqb_ℤ, ◌-ℤ◌, if◌then◌else◌, Map, lookup, insert,
  erase, delete_if,
}
use waffle.Email.Queue.{
  EmailStatus, unset, pending, scheduled, sending, sent, failed, QueuedEmail, QueueError,
  email_not_found, QueueStores, is_later,
}

abbrev pub same_status : EmailStatus → EmailStatus → Bool
same_status unset unset = true
same_status pending pending = true
same_status scheduled scheduled = true
same_status sending sending = true
same_status sent sent = true
same_status failed failed = true
same_status _ _ = false

abbrev pub Emails : Type 0 → Type 0 → Type 0
Emails M E = Map String (QueuedEmail M E)

-- The filter of List; a limit or an offset of 0 or less does not count.
pub record QueueFilter : Type 0 where
  pub status : EmailStatus
  pub limit : ℤ
  pub offset : ℤ
  pub from : Option ℤ
  pub to : Option ℤ

pub record QueueStats : Type 0 where
  pub pending : ℕ
  pub scheduled : ℕ
  pub sending : ℕ
  pub sent : ℕ
  pub failed : ℕ
  pub total : ℕ

abbrev pub count : EmailStatus → QueueStats → QueueStats
count pending s = record s { pending = suc s.pending }
count scheduled s = record s { scheduled = suc s.scheduled }
count sending s = record s { sending = suc s.sending }
count sent s = record s { sent = suc s.sent }
count failed s = record s { failed = suc s.failed }
count unset s = s

abbrev pub no_emails : QueueStats
no_emails = record { pending = 0; scheduled = 0; sending = 0; sent = 0; failed = 0; total = 0 }

module _ {M E : Type 0} where
  -- The two tests that skip an email.
  unfoldable pub is_ready : ℤ → QueuedEmail M E → Bool
  is_ready now e =
      if same_status e.status pending
      then true
      else (if same_status e.status scheduled then not (is_later now e.scheduled_at) else false)

  -- The email replaces the one found so far.
  unfoldable pub is_better : QueuedEmail M E → QueuedEmail M E → Bool
  is_better e oldest =
      ltb_ℤ oldest.priority e.priority
      || (eqb_ℤ e.priority oldest.priority && ltb_ℤ e.created_at oldest.created_at)

  unfoldable pub better_of : QueuedEmail M E → Option (QueuedEmail M E) → QueuedEmail M E
  unfolding is_better
  better_of e none = e
  better_of e (some oldest) = if is_better e oldest then e else oldest

  -- The loop of Dequeue.
  unfoldable pub dequeue_from : ℤ → Option (QueuedEmail M E) → Emails M E → Option (QueuedEmail M E)
  unfolding is_ready better_of
  dequeue_from now oldest [] = oldest
  dequeue_from now oldest ((id, e) ∷ emails) =
      dequeue_from now (if is_ready now e then some (better_of e oldest) else oldest) emails

  unfoldable pub update_email : QueuedEmail M E → Emails M E → Emails M E × Option QueueError
  update_email e emails = elim (lookup e.id emails) [
    | none ↦ (emails, some email_not_found)
    | some old ↦ (insert e.id e emails, none)
  ]

  unfoldable pub get_email : String → Emails M E → QueuedEmail M E ⊎ QueueError
  get_email id emails = elim (lookup id emails) [ none ↦ inr email_not_found | some e ↦ inl e ]

  unfoldable pub delete_email : String → Emails M E → Emails M E × Option QueueError
  delete_email id emails = elim (lookup id emails) [
    | none ↦ (emails, some email_not_found)
    | some e ↦ (erase id emails, none)
  ]

  unfoldable pub matches_filter : QueueFilter → QueuedEmail M E → Bool
  matches_filter f e =
      (same_status f.status unset || same_status e.status f.status)
      && (not (is_earlier e.created_at f.from) && not (is_later_than e.created_at f.to))
    where
      is_earlier : ℤ → Option ℤ → Bool
      is_earlier t none = false
      is_earlier t (some from) = ltb_ℤ t from

      is_later_than : ℤ → Option ℤ → Bool
      is_later_than t none = false
      is_later_than t (some to) = ltb_ℤ to t

  -- The loop of List, with the number of emails skipped and of those found so far.
  unfoldable pub list_from : QueueFilter → ℕ → ℕ → Emails M E → List (QueuedEmail M E)
  unfolding matches_filter
  list_from f skipped found [] = []
  list_from f skipped found ((id, e) ∷ emails) =
      let rest = list_from f skipped found emails in
      let skip = list_from f (suc skipped) found emails in
      let take = list_from f skipped (suc found) emails in
      if matches_filter f e
      then (if ltb_ℤ (pos 0) f.offset && ltb_ℤ (pos skipped) f.offset
          then skip
          else (if ltb_ℤ (pos 0) f.limit && leb_ℤ f.limit (pos found) then [] else e ∷ take))
      else rest

  unfoldable pub list_emails : QueueFilter → Emails M E → List (QueuedEmail M E)
  unfolding list_from
  list_emails f emails = list_from f 0 0 emails

  unfoldable pub stats_from : QueueStats → Emails M E → QueueStats
  stats_from s [] = s
  stats_from s ((id, e) ∷ emails) =
      let counted = count e.status s in
      stats_from (record counted { total = suc counted.total }) emails

  unfoldable pub stats : Emails M E → QueueStats
  unfolding stats_from
  stats emails = stats_from no_emails emails

  -- Sent or failed before the cutoff.
  unfoldable pub is_old : ℤ → QueuedEmail M E → Bool
  is_old cutoff e =
      (same_status e.status sent || same_status e.status failed) && ltb_ℤ e.created_at cutoff

  unfoldable pub count_old : ℤ → Emails M E → ℕ
  unfolding is_old
  count_old cutoff [] = 0
  count_old cutoff ((id, e) ∷ emails) =
      let rest = count_old cutoff emails in if is_old cutoff e then suc rest else rest

  -- Cleanup, with the number of emails removed.
  unfoldable pub cleanup_emails : ℤ → ℤ → Emails M E → Emails M E × ℕ
  unfolding is_old count_old
  cleanup_emails now max_age emails =
      let cutoff = now -ℤ max_age in (delete_if (is_old cutoff) emails, count_old cutoff emails)

abbrev pub memory_queue_store : (M E : Type 0) → QueueStores M E
memory_queue_store M E = record {
  State = Emails M E;
  enqueue = λ e emails. (insert e.id e emails, none);
  dequeue = λ now emails. inl (dequeue_from now none emails);
  update = λ e emails. update_email e emails;
  get = λ id emails. get_email id emails;
  delete = λ id emails. delete_email id emails;
}
