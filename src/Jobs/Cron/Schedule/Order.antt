-- ===== src/Jobs/Cron/Schedule/Order.antt =====
-- pantry/jobs/cron.go: which times a round of CronExpr.Next passes over.
use mathlib.Core.Path.{subst}
use waffle.Base.{
  ℕ, ◌+◌, ◌-◌, ◌*◌, ◌/◌, ◌≤◌, ◌<◌, ◌≡◌, refl, ap, inl, inr, true, false, Bool-cases, Option-cases,
  none, some, List, [], ◌∷◌, ℤ, pos, pos_part, ltb_ℤ, ◌<ℤ◌, ◌≤ℤ◌, ltb, All, arith,
}
use waffle.Jobs.Cron.Values.{contains}
use waffle.Jobs.Cron.Sorting.{IsIncreasing}
use waffle.Jobs.Cron.Schedule.{
  CronExpr, Calendar, CalendarLaws, day_at, hour_at, minute_at, next_value, day_ok, Round, goes_on,
  stops, minute_round, hour_round, round,
}

-- No value is greater than the current one.
next_value-none :
    (current v : ℕ) (vs : List ℤ)
    → next_value current vs ≡ none
    → current < v
    → contains vs (pos v) ≡ false
unfolding next_value contains
next_value-none current v [] h l = refl
next_value-none current v (x ∷ vs) h l = ground (arith, next_value-none current v vs)

-- Of increasing values, none stands between the current one and the next.
contains-below :
    (v : ℕ) (vs : List ℤ) (x : ℤ) → All (λ y. x <ℤ y) vs → pos v <ℤ x → contains vs (pos v) ≡ false
unfolding contains
contains-below v [] x h l = refl
contains-below v (y ∷ vs) x (k, h) l = ground (arith, contains-below v vs x h l)

next_value-some :
    (current next : ℕ) (vs : List ℤ)
    → IsIncreasing vs
    → next_value current vs ≡ some next
    → (current < next)
      × (contains vs (pos next) ≡ true)
      × ((v : ℕ) → current < v → v < next → contains vs (pos v) ≡ false)
unfolding next_value contains
next_value-some current next [] up h = cc
next_value-some current next (x ∷ vs) (above, up) h = elim (Bool-cases (ltb_ℤ (pos current) x)) [
  | inl later ↦
      let same : pos_part x ≡ next = ground arith in
      (
        ground arith,
        ground arith,
        λ v l l'.
            let gone : contains vs (pos v) ≡ false = contains-below v vs x above (ground arith) in
            ground arith,
      )
  | inr earlier ↦
      let (l, found, between) = next_value-some current next vs up (ground arith) in
      (l, ground arith, λ v k k'. let gone = between v k k' in ground arith)
]

-- So no value stands from the current one, if that is none of them, up to the next.
skipped :
    (current v : ℕ) (vs : List ℤ)
    → contains vs (pos current) ≡ false
    → (current < v → contains vs (pos v) ≡ false)
    → current ≤ v
    → contains vs (pos v) ≡ false
skipped current v vs absent later l = elim (Bool-cases (ltb current v)) [
  | inl above ↦ later (ground arith)
  | inr same ↦
      let e : current ≡ v = ground arith in subst (λ n. contains vs (pos n) ≡ false) e absent
]

-- What parsing gives of a field: increasing values within its bounds.
abbrev pub IsField : ℕ → List ℤ → Type 0
IsField max vs = IsIncreasing vs × All (λ v. v ≤ℤ pos max) vs

contains-bound :
    (max v : ℕ) (vs : List ℤ) → All (λ x. x ≤ℤ pos max) vs → contains vs (pos v) ≡ true → v ≤ max
unfolding contains
contains-bound max v [] h e = cc
contains-bound max v (x ∷ vs) (k, h) e = ground (arith, contains-bound max v vs h)

module _ (calendar : Calendar) (c : CronExpr) where
  -- The minutes at which the expression fires.
  abbrev pub Fires : ℕ → Type 0
  Fires t =
      (contains c.month (pos (calendar.month_of (day_at t))) ≡ true)
      × (day_ok calendar c (day_at t) ≡ true)
      × (contains c.hour (pos (hour_at t)) ≡ true)
      × (contains c.minute (pos (minute_at t)) ≡ true)

  abbrev pub IsFree : ℕ → ℕ → Type 0
  IsFree from to = (k : ℕ) → from ≤ k → k < to → ¬ Fires k

  -- A round ends at the first minute that fires, or passes over minutes that do not.
  abbrev pub Passes : ℕ → Round calendar c → Type 0
  Passes t (goes_on later) = (t < later) × IsFree t later
  Passes t (stops n) = (t ≤ n) × Fires n × IsFree t n

  pub Passes-later :
      (t later : ℕ) (r : Round calendar c)
      → t ≤ later
      → IsFree t later
      → Passes later r
      → Passes t r
  Passes-later t later (goes_on n) l free (m, h) = (
    omega arith,
    λ k a b. elim (Bool-cases (ltb k later)) [
      | inl below ↦ free k a (ground arith)
      | inr above ↦ h k (ground arith) b
    ],
  )
  Passes-later t later (stops n) l free (m, fires, h) = (
    omega arith,
    fires,
    λ k a b. elim (Bool-cases (ltb k later)) [
      | inl below ↦ free k a (ground arith)
      | inr above ↦ h k (ground arith) b
    ],
  )

  minute_round-Passes :
      (t : ℕ)
      → calendar.past_hour ≡ 0
      → IsField 59 c.minute
      → contains c.month (pos (calendar.month_of (day_at t))) ≡ true
      → day_ok calendar c (day_at t) ≡ true
      → contains c.hour (pos (hour_at t)) ≡ true
      → Passes t (minute_round calendar c t)
  unfolding minute_round
  minute_round-Passes t whole (up, range) month day hour =
      elim (Bool-cases (contains c.minute (pos (minute_at t)))) [
        | inl now ↦
            let e : minute_round calendar c t ≡ stops t = rw (minute_round, now) refl in
            rw e (omega arith, (month, day, hour, now), λ k a b. absurd (omega arith))
        | inr absent ↦ elim (Option-cases (next_value (minute_at t) c.minute)) [
          | inl last ↦
              let hours : (t + 60 - calendar.past_hour) / 60 * 60 + calendar.past_hour
                  ≡ (t / 60 + 1) * 60 =
                omega (arith, whole) in
              let e : minute_round calendar c t ≡ goes_on ((t / 60 + 1) * 60) =
                rw (minute_round, absent, last) (ap goes_on hours) in
              rw e (
                omega arith,
                λ k a b (m, d, h, fires).
                    let passed =
                      skipped (minute_at t) (minute_at k) c.minute absent
                        (next_value-none (minute_at t) (minute_at k) c.minute last) (omega arith) in
                    cc (passed, fires),
              )
          | inr (m, found) ↦
              let (l, is, between) = next_value-some (minute_at t) m c.minute up found in
              let bound = contains-bound 59 m c.minute range is in
              let n : ℕ = t / 60 * 60 + m in
              let e : minute_round calendar c t ≡ stops n = rw (minute_round, absent, found) refl in
              let same_day : day_at t ≡ day_at n = omega arith in
              let same_hour : hour_at t ≡ hour_at n = omega arith in
              let same_minute : m ≡ minute_at n = omega arith in
              rw e (
                omega arith,
                (
                  subst (λ d. contains c.month (pos (calendar.month_of d)) ≡ true) same_day month,
                  subst (λ d. day_ok calendar c d ≡ true) same_day day,
                  subst (λ d. contains c.hour (pos d) ≡ true) same_hour hour,
                  subst (λ d. contains c.minute (pos d) ≡ true) same_minute is,
                ),
                λ k a b (mo, d, h, fires).
                    let passed =
                      skipped (minute_at t) (minute_at k) c.minute absent
                        (λ later. between (minute_at k) later (omega arith)) (omega arith) in
                    cc (passed, fires),
              )
        ]
      ]

  hour_round-Passes :
      (t : ℕ)
      → calendar.past_hour ≡ 0
      → IsField 59 c.minute
      → IsField 23 c.hour
      → contains c.month (pos (calendar.month_of (day_at t))) ≡ true
      → day_ok calendar c (day_at t) ≡ true
      → Passes t (hour_round calendar c t)
  unfolding hour_round
  hour_round-Passes t whole minutes (up, range) month day =
      elim (Bool-cases (contains c.hour (pos (hour_at t)))) [
        | inl now ↦
            let e : hour_round calendar c t ≡ minute_round calendar c t =
              rw (hour_round, now) refl in
            rw e (minute_round-Passes t whole minutes month day now)
        | inr absent ↦ elim (Option-cases (next_value (hour_at t) c.hour)) [
          | inl last ↦
              let e : hour_round calendar c t ≡ goes_on ((day_at t + 1) * 1440) =
                rw (hour_round, absent, last) refl in
              rw e (
                omega arith,
                λ k a b (m, d, fires, n).
                    let passed =
                      skipped (hour_at t) (hour_at k) c.hour absent
                        (next_value-none (hour_at t) (hour_at k) c.hour last) (omega arith) in
                    cc (passed, fires),
              )
          | inr (h, found) ↦
              let (l, is, between) = next_value-some (hour_at t) h c.hour up found in
              let bound = contains-bound 23 h c.hour range is in
              let n : ℕ = day_at t * 1440 + h * 60 in
              let e : hour_round calendar c t ≡ minute_round calendar c n =
                rw (hour_round, absent, found) refl in
              let same_day : day_at t ≡ day_at n = omega arith in
              let same_hour : h ≡ hour_at n = omega arith in
              rw e (
                Passes-later t n (minute_round calendar c n) (omega arith)
                  (λ k a b (m, d, fires, q).
                    let passed =
                      skipped (hour_at t) (hour_at k) c.hour absent
                        (λ later. between (hour_at k) later (omega arith)) (omega arith) in
                    cc (passed, fires))
                  (minute_round-Passes n whole minutes
                    (subst (λ d. contains c.month (pos (calendar.month_of d)) ≡ true) same_day
                      month)
                    (subst (λ d. day_ok calendar c d ≡ true) same_day day)
                    (subst (λ d. contains c.hour (pos d) ≡ true) same_hour is)))
        ]
      ]

  pub round-Passes :
      (t : ℕ)
      → CalendarLaws calendar
      → IsField 59 c.minute
      → IsField 23 c.hour
      → Passes t (round calendar c t)
  unfolding round
  round-Passes t laws minutes hours =
      let d = day_at t in
      elim (Bool-cases (contains c.month (pos (calendar.month_of d)))) [
        | inr absent ↦
            let e : round calendar c t ≡ goes_on (calendar.next_month d * 1440) =
              rw (round, absent) refl in
            let later = laws.is_later d in
            rw e (
              omega arith,
              λ k a b (fires, o, h, n).
                  let same = laws.same_month d (day_at k) (omega arith) (omega arith) in
                  cc (subst (λ x. contains c.month (pos x) ≡ true) same fires, absent),
            )
        | inl month ↦ elim (Bool-cases (day_ok calendar c d)) [
          | inl day ↦
              let e : round calendar c t ≡ hour_round calendar c t = rw (round, month, day) refl in
              rw e (hour_round-Passes t laws.whole_hours minutes hours month day)
          | inr off ↦
              let e : round calendar c t ≡ goes_on ((d + 1) * 1440) = rw (round, month, off) refl in
              rw e (
                omega arith,
                λ k a b (m, fires, h, n).
                    let same : day_at k ≡ d = omega arith in
                    cc (subst (λ x. day_ok calendar c x ≡ true) same fires, off),
              )
        ]
      ]
