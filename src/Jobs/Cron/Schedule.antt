-- ===== src/Jobs/Cron/Schedule.antt =====
-- pantry/jobs/cron.go: CronExpr.Next, in a location whose offset does not change. A time is its
-- number of whole minutes since a midnight, and the calendar of the package time a parameter: of
-- the day with a number, its month, its day of the month, its weekday, and the number of the first
-- day of the month after it; and of the location's offset from UTC, the minutes past a whole hour.
pub mod Order
pub mod First
pub mod Predefined
use waffle.Base.{
  ℕ, zero, suc, ◌+◌, ◌-◌, ◌*◌, ◌/◌, ◌%◌, ◌≤◌, ◌<◌, ◌≡◌, Bool, true, false, ◌||◌, ◌&&◌, Option, none,
  some, List, [], ◌∷◌, ℤ, pos, pos_part, ltb, ltb_ℤ, eqb, length, if◌then◌else◌,
}
use waffle.Jobs.Cron.Values.{contains}

pub record CronExpr : Type 0 where
  pub minute : List ℤ
  pub hour : List ℤ
  pub day_of_month : List ℤ
  pub month : List ℤ
  pub day_of_week : List ℤ

pub record Calendar : Type 0 where
  pub month_of : ℕ → ℕ
  pub day_in_month : ℕ → ℕ
  pub weekday : ℕ → ℕ
  pub next_month : ℕ → ℕ
  pub past_hour : ℕ

-- What is said of `next_month`: it is later, and the days up to it are of the same month. The
-- offset is a whole number of hours.
pub record CalendarLaws (calendar : Calendar) : Type 0 where
  pub is_later : (d : ℕ) → d < calendar.next_month d
  pub same_month :
      (d e : ℕ) → d ≤ e → e < calendar.next_month d → calendar.month_of e ≡ calendar.month_of d
  pub whole_hours : calendar.past_hour ≡ 0

abbrev pub day_at : ℕ → ℕ
day_at t = t / 1440

abbrev pub hour_at : ℕ → ℕ
hour_at t = t % 1440 / 60

abbrev pub minute_at : ℕ → ℕ
minute_at t = t % 60

-- The loops that look for the next hour and the next minute.
unfoldable pub next_value : ℕ → List ℤ → Option ℕ
next_value current [] = none
next_value current (v ∷ vs) =
    let rest = next_value current vs in if ltb_ℤ (pos current) v then some (pos_part v) else rest

module _ (calendar : Calendar) (c : CronExpr) where
  -- `dayOk`
  unfoldable pub day_ok : ℕ → Bool
  day_ok d =
      let day_matches = contains c.day_of_month (pos (calendar.day_in_month d)) in
      let dow_matches = contains c.day_of_week (pos (calendar.weekday d)) in
      let dom_is_all = eqb (length c.day_of_month) 31 in
      let dow_is_all = eqb (length c.day_of_week) 7 in
      if dom_is_all && dow_is_all
      then true
      else (if dom_is_all
          then dow_matches
          else (if dow_is_all then day_matches else day_matches || dow_matches))

  -- How a round of the loop ends: with the time to go on from, or with the result.
  pub data Round : Type 0 where
    goes_on : ℕ → Round
    stops : ℕ → Round

  -- The check of the minute. `Truncate(time.Hour)` cuts the time in UTC, whose hours begin
  -- `past_hour` minutes past those of the location.
  unfoldable pub minute_round : ℕ → Round
  unfolding next_value
  minute_round t =
      if contains c.minute (pos (minute_at t))
      then stops t
      else elim (next_value (minute_at t) c.minute) [
        | none ↦ goes_on ((t + 60 - calendar.past_hour) / 60 * 60 + calendar.past_hour)
        | some m ↦ stops (t / 60 * 60 + m)
      ]

  unfoldable pub hour_round : ℕ → Round
  unfolding next_value minute_round
  hour_round t =
      if contains c.hour (pos (hour_at t))
      then minute_round t
      else elim (next_value (hour_at t) c.hour) [
        | none ↦ goes_on ((day_at t + 1) * 1440)
        | some h ↦ minute_round (day_at t * 1440 + h * 60)
      ]

  unfoldable pub round : ℕ → Round
  unfolding day_ok hour_round
  round t =
      if contains c.month (pos (calendar.month_of (day_at t)))
      then (if day_ok (day_at t) then hour_round t else goes_on ((day_at t + 1) * 1440))
      else goes_on (calendar.next_month (day_at t) * 1440)

  abbrev pub after_round : (ℕ → Option ℕ) → Round → Option ℕ
  after_round again (goes_on t) = again t
  after_round again (stops t) = some t

  -- The loop, with fuel; none is the zero time. The first minute that is not before `maxTime` is
  -- `max_time`.
  unfoldable pub search : ℕ → ℕ → ℕ → Option ℕ
  unfolding round
  search zero max_time t = none
  search (suc fuel) max_time t =
      if ltb t max_time then after_round (λ t'. search fuel max_time t') (round t) else none

  -- Each round goes on from a later time, so that as much fuel as there are minutes is enough.
  unfoldable pub next : ℕ → ℕ → Option ℕ
  unfolding search
  next max_time after = search (max_time - after) max_time (after + 1)
