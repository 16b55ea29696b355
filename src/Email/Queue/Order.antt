-- ===== src/Email/Queue/Order.antt =====
-- pantry/email/queue.go: which email MemoryQueueStore.Dequeue gives, in whatever order it meets
-- the entries of the map.
use waffle.Base.{
  ◌≡◌, refl, ap, sym, true, false, Bool-cases, Option-cases, Option, none, some, ◌⊎◌, inl, inr, [],
  ◌∷◌, String, ℤ, if◌then◌else◌, All, All-map, ◌≤ℤ◌, Elem, arith,
}
use waffle.Email.Queue.{QueuedEmail}
use waffle.Email.Queue.Memory.{Emails, is_ready, is_better, better_of, dequeue_from}

module _ {M E : Type 0} where
  -- The second one is there, and the first one is not better.
  abbrev NotBetter : Option (QueuedEmail M E) → Option (QueuedEmail M E) → Type 0
  NotBetter none r = Unit
  NotBetter (some e) none = ⊥
  NotBetter (some e) (some best) = is_better e best ≡ false

  -- The first email does not go before the second: by its priority, and by its age.
  abbrev pub IsBehind : QueuedEmail M E → QueuedEmail M E → Type 0
  IsBehind e best =
      (e.priority ≤ℤ best.priority) × (e.priority ≡ best.priority → best.created_at ≤ℤ e.created_at)

  -- The email that is to be sent next, or none.
  abbrev pub IsNext : ℤ → Emails M E → Option (QueuedEmail M E) → Type 0
  IsNext now emails none = All (λ entry. is_ready now entry.1 ≡ false) emails
  IsNext now emails (some best) =
      ((id : String) × Elem (id, best) emails)
      × (is_ready now best ≡ true)
      × All (λ entry. is_ready now entry.1 ≡ true → IsBehind entry.1 best) emails

  is_better_same : (e : QueuedEmail M E) → is_better e e ≡ false
  unfolding is_better
  is_better_same e = ground arith

  is_better_trans :
      (a b c : QueuedEmail M E)
      → is_better a b ≡ false
      → is_better b c ≡ false
      → is_better a c ≡ false
  unfolding is_better
  is_better_trans a b c h k = ground arith

  is_better_asym : (a b : QueuedEmail M E) → is_better a b ≡ true → is_better b a ≡ false
  unfolding is_better
  is_better_asym a b h = ground arith

  rank_chain : (a b c : Option (QueuedEmail M E)) → NotBetter a b → NotBetter b c → NotBetter a c
  rank_chain none b c h k = tt
  rank_chain (some a) none c h k = absurd h
  rank_chain (some a) (some b) none h k = absurd k
  rank_chain (some a) (some b) (some c) h k = is_better_trans a b c h k

  better_of-email :
      (e : QueuedEmail M E) (o : Option (QueuedEmail M E))
      → NotBetter (some e) (some (better_of e o))
  unfolding better_of
  better_of-email e none = is_better_same e
  better_of-email e (some o) = elim (Bool-cases (is_better e o)) [
    | inl t ↦ rw t (is_better_same e)
    | inr t ↦ rw t t
  ]

  better_of-found :
      (e : QueuedEmail M E) (o : Option (QueuedEmail M E)) → NotBetter o (some (better_of e o))
  unfolding better_of
  better_of-found e none = tt
  better_of-found e (some o) = elim (Bool-cases (is_better e o)) [
    | inl t ↦ rw t (is_better_asym e o t)
    | inr t ↦ rw t (is_better_same o)
  ]

  better_of-either :
      (e : QueuedEmail M E) (o : Option (QueuedEmail M E))
      → (better_of e o ≡ e) ⊎ (o ≡ some (better_of e o))
  unfolding better_of
  better_of-either e none = inl refl
  better_of-either e (some o) = elim (Bool-cases (is_better e o)) [
    | inl t ↦ inl (rw t refl)
    | inr t ↦ inr (rw t refl)
  ]

  -- The loop never gives up what it has found for less.
  dequeue_from-found :
      (now : ℤ) (o : Option (QueuedEmail M E)) (emails : Emails M E)
      → NotBetter o (dequeue_from now o emails)
  unfolding dequeue_from
  dequeue_from-found now none [] = tt
  dequeue_from-found now (some o) [] = is_better_same o
  dequeue_from-found now o ((id, e) ∷ emails) = elim (Bool-cases (is_ready now e)) [
    | inl t ↦ rw t (
        rank_chain o (some (better_of e o)) (dequeue_from now (some (better_of e o)) emails)
          (better_of-found e o) (dequeue_from-found now (some (better_of e o)) emails))
    | inr t ↦ rw t (dequeue_from-found now o emails)
  ]

  -- Every ready email has something at least as good.
  dequeue_from-ready :
      (now : ℤ) (o : Option (QueuedEmail M E)) (emails : Emails M E)
      → All
          (λ entry.
            is_ready now entry.1 ≡ true → NotBetter (some entry.1) (dequeue_from now o emails))
          emails
  unfolding dequeue_from
  dequeue_from-ready now o [] = tt
  dequeue_from-ready now o ((id, e) ∷ emails) = (
    λ t. rw t (
        rank_chain (some e) (some (better_of e o)) (dequeue_from now (some (better_of e o)) emails)
          (better_of-email e o) (dequeue_from-found now (some (better_of e o)) emails)),
    dequeue_from-ready now (if is_ready now e then some (better_of e o) else o) emails,
  )

  from_entry :
      (now : ℤ) (o : Option (QueuedEmail M E)) (e best : QueuedEmail M E) (id : String)
      → (if is_ready now e then some (better_of e o) else o) ≡ some best
      → (o ≡ some best) ⊎ ((e ≡ best) × (is_ready now best ≡ true))
  from_entry now o e best id had = ground (arith, better_of-either e o)

  pub dequeue_from-either :
      (now : ℤ) (o : Option (QueuedEmail M E)) (emails : Emails M E) (best : QueuedEmail M E)
      → dequeue_from now o emails ≡ some best
      → (o ≡ some best) ⊎ (((id : String) × Elem (id, best) emails) × (is_ready now best ≡ true))
  unfolding dequeue_from
  dequeue_from-either now o [] best h = inl h
  dequeue_from-either now o ((id, e) ∷ emails) best h =
      elim (dequeue_from-either now (if is_ready now e then some (better_of e o) else o) emails best
        h) [
          | inr ((key, place), ready) ↦ inr ((key, inr place), ready)
          | inl had ↦ elim (from_entry now o e best id had) [
            | inl found ↦ inl found
            | inr (same, ready) ↦ inr ((id, inl (ap (λ x. (id, x)) (sym same))), ready)
          ]
        ]

  not_ready :
      (now : ℤ) (emails : Emails M E)
      → All (λ entry. is_ready now entry.1 ≡ true → NotBetter (some entry.1) none) emails
      → All (λ entry. is_ready now entry.1 ≡ false) emails
  not_ready now [] h = tt
  not_ready now ((id, e) ∷ emails) (no_e, h) = (
    elim (Bool-cases (is_ready now e)) [ inl t ↦ absurd (no_e t) | inr t ↦ t ],
    not_ready now emails h,
  )

  is_better-IsBehind : (e best : QueuedEmail M E) → is_better e best ≡ false → IsBehind e best
  unfolding is_better
  is_better-IsBehind e best h = (ground arith, λ same. ground arith)

  -- Dequeue gives nothing just if no email is ready: pending, or scheduled with a time that has
  -- come. Else it gives an email of the map that is ready and that no other ready email is better
  -- than: of a higher priority, or of the same one and created before it.
  pub dequeue_from-IsNext :
      (now : ℤ) (emails : Emails M E) → IsNext now emails (dequeue_from now none emails)
  dequeue_from-IsNext now emails = elim (Option-cases (dequeue_from now none emails)) [
    | inl e ↦ rw e (not_ready now emails (rw e at (dequeue_from-ready now none emails)))
    | inr (best, e) ↦ rw e (elim (dequeue_from-either now none emails best e) [
      | inl h ↦ cc
      | inr (place, ready) ↦ (
        place,
        ready,
        All-map (λ entry behind waits. is_better-IsBehind entry.1 best (behind waits)) emails
            (rw e at (dequeue_from-ready now none emails)),
      )
    ])
  ]
