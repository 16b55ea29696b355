-- ===== src/Jobs/Cron/Examples.antt =====
-- Fields of cron expressions.
use waffle.Base.{
  ◌+◌, ◌*◌, ◌/◌, ◌%◌, ◌≡◌, refl, none, some, [], ◌∷◌, String, pos, negsuc, ◌+ℤ◌, ◌-ℤ◌, arith, Text,
  cut, split, atoi,
}
use Prim.Native.String.{String}
use Prim.Native.Char.{code}
use waffle.Jobs.Cron.Values.{contains, add_64, step_values, unique_sorted}
use waffle.Jobs.Cron.Fields.{ok, err, out_of_bounds, parse_field}
use waffle.Jobs.Cron.Schedule.{CronExpr, Calendar, CalendarLaws, next}
use waffle.Jobs.Cron.Schedule.First.{IsFirst, next-IsFirst}

abbrev text : String → Text
text String.[] = []
text (String.◌∷◌ c s) = code c ∷ text s

program : Unit {0}
unfolding parse_field split cut atoi add_64 ◌+ℤ◌ ◌-ℤ◌ step_values unique_sorted
program = tt

quarters : parse_field 0 59 (text "*/15") ≡ ok (pos 0 ∷ pos 15 ∷ pos 30 ∷ pos 45 ∷ [])
unfolding program
quarters = refl

mixed : parse_field 0 23 (text "9,1-5/2,3") ≡ ok (pos 1 ∷ pos 3 ∷ pos 5 ∷ pos 9 ∷ [])
unfolding program
mixed = refl

backwards : parse_field 0 6 (text "5-0") ≡ err out_of_bounds
unfolding program
backwards = refl

-- The step overflows, and the field has values that the range does not have.
overflowing :
    parse_field 1 31 (text "1-31/9223372036854775807")
    ≡ ok (negsuc 0x7fff_ffff_ffff_ffff ∷ negsuc 0 ∷ pos 1 ∷ [])
unfolding program
overflowing = refl

-- Years of twelve months of thirty days.
abbrev even_months : Calendar
even_months = record {
  month_of = λ d. d / 30 % 12 + 1;
  day_in_month = λ d. d % 30 + 1;
  weekday = λ d. d % 7;
  next_month = λ d. (d / 30 + 1) * 30;
  past_hour = 0;
}

even_months-CalendarLaws : CalendarLaws even_months
even_months-CalendarLaws = record {
  is_later = λ d. omega arith;
  same_month = λ d e l h. let same : e / 30 ≡ d / 30 = omega arith in rw same refl;
  whole_hours = refl;
}

-- At 9:30 and 17:30 on the second and the third day of each month.
abbrev twice_a_day : CronExpr
twice_a_day = record {
  minute = pos 30 ∷ [];
  hour = pos 9 ∷ pos 17 ∷ [];
  day_of_month = pos 2 ∷ pos 3 ∷ [];
  month =
      pos 1
      ∷ pos 2
      ∷ pos 3
      ∷ pos 4
      ∷ pos 5
      ∷ pos 6
      ∷ pos 7
      ∷ pos 8
      ∷ pos 9
      ∷ pos 10
      ∷ pos 11
      ∷ pos 12
      ∷ [];
  day_of_week = pos 0 ∷ pos 1 ∷ pos 2 ∷ pos 3 ∷ pos 4 ∷ pos 5 ∷ pos 6 ∷ [];
}

first_run : next even_months twice_a_day 10000 0 ≡ some 2010
unfolding next contains
first_run = refl

next-IsFirst_example :
    IsFirst even_months twice_a_day 10000 (0 + 1) (next even_months twice_a_day 10000 0)
next-IsFirst_example =
    next-IsFirst even_months twice_a_day 10000 0 even_months-CalendarLaws
      ((tt, tt), (omega arith, tt))
      (((omega arith, tt), (tt, tt)), (omega arith, (omega arith, tt)))

-- At a quarter past each hour. With an offset of half an hour past, the search from 9:21 looks at
-- 9:30, 10:30 and 11:30, and passes over 10:15.
abbrev quarter_past : CronExpr
quarter_past = record {
  minute = pos 15 ∷ [];
  hour = pos 9 ∷ pos 10 ∷ pos 11 ∷ [];
  day_of_month = pos 1 ∷ [];
  month = pos 1 ∷ [];
  day_of_week = pos 0 ∷ [];
}

half_hour_offset :
    (next even_months quarter_past 720 560 ≡ some 615)
    × (next (record even_months { past_hour = 30 }) quarter_past 720 560 ≡ none)
unfolding next contains
half_hour_offset = (refl, refl)
