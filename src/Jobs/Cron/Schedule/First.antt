-- ===== src/Jobs/Cron/Schedule/First.antt =====
-- pantry/jobs/cron.go: the time that CronExpr.Next gives.
use waffle.Base.{
  ℕ, zero, suc, ◌+◌, ◌-◌, ◌≤◌, ◌<◌, inl, inr, Bool-cases, ltb, Option, none, some, arith,
}
use waffle.Jobs.Cron.Schedule.{
  CronExpr, Calendar, CalendarLaws, Round, goes_on, stops, round, after_round, search, next,
}
use waffle.Jobs.Cron.Schedule.Order.{IsField, Fires, IsFree, Passes, Passes-later, round-Passes}

module _ (calendar : Calendar) (c : CronExpr) where
  -- The first minute from `from` on that fires, or none if no minute before `max_time` does.
  abbrev pub IsFirst : ℕ → ℕ → Option ℕ → Type 0
  IsFirst max_time from none = IsFree calendar c from max_time
  IsFirst max_time from (some n) = (from ≤ n) × Fires calendar c n × IsFree calendar c from n

  IsFirst-later :
      (max_time t later : ℕ) (r : Option ℕ)
      → t ≤ later
      → IsFree calendar c t later
      → IsFirst max_time later r
      → IsFirst max_time t r
  IsFirst-later max_time t later none l free h = λ k a b. elim (Bool-cases (ltb k later)) [
    | inl below ↦ free k a (ground arith)
    | inr above ↦ h k (ground arith) b
  ]
  IsFirst-later max_time t later (some n) l free h =
      Passes-later calendar c t later (stops n) l free h

  after_round-IsFirst :
      (max_time t : ℕ) (again : ℕ → Option ℕ) (r : Round calendar c)
      → Passes calendar c t r
      → ((later : ℕ) → t < later → IsFirst max_time later (again later))
      → IsFirst max_time t (after_round calendar c again r)
  after_round-IsFirst max_time t again (goes_on later) (l, free) h =
      IsFirst-later max_time t later (again later) (omega arith) free (h later l)
  after_round-IsFirst max_time t again (stops n) p h = p

  search-IsFirst :
      (fuel max_time t : ℕ)
      → CalendarLaws calendar
      → IsField 59 c.minute
      → IsField 23 c.hour
      → max_time - t ≤ fuel
      → IsFirst max_time t (search calendar c fuel max_time t)
  unfolding search
  search-IsFirst zero max_time t laws minutes hours h = λ k a b. absurd (omega arith)
  search-IsFirst (suc fuel) max_time t laws minutes hours h = elim (Bool-cases (ltb t max_time)) [
    | inr over ↦ rw over (λ k a b. absurd (ground arith))
    | inl before ↦ rw before (
        after_round-IsFirst max_time t (λ later. search calendar c fuel max_time later)
          (round calendar c t) (round-Passes calendar c t laws minutes hours)
          (λ later l. search-IsFirst fuel max_time later laws minutes hours (ground arith)))
  ]

  -- In a location whose offset from UTC is a whole number of hours and does not change, Next gives
  -- the first minute after the given one at which the expression fires, and the zero time only if
  -- no minute before the end of its search does. The hours and minutes of the
  -- expression are increasing and within their bounds, as parsing gives them.
  pub next-IsFirst :
      (max_time after : ℕ)
      → CalendarLaws calendar
      → IsField 59 c.minute
      → IsField 23 c.hour
      → IsFirst max_time (after + 1) (next calendar c max_time after)
  unfolding next
  next-IsFirst max_time after laws minutes hours =
      search-IsFirst (max_time - after) max_time (after + 1) laws minutes hours (omega arith)
