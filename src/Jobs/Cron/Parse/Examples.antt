-- ===== src/Jobs/Cron/Parse/Examples.antt =====
-- Cron expressions in text.
use waffle.Base.{◌≡◌, refl, none, some, ◌<ℤ◌, [], ◌∷◌, ℤ, pos, ◌+ℤ◌, Text, arith, split, cut, atoi}
use waffle.Validate.Formats.{codes}
use waffle.Jobs.Cron.Fields.{ok, err, out_of_bounds}
use waffle.Jobs.Cron.Values.{add_64}
use waffle.Jobs.Cron.Bounds.{fits, StepFits}
use waffle.Jobs.Cron.Schedule.{CronExpr}
use waffle.Jobs.Cron.Schedule.Predefined.{IsExpr}
use waffle.Jobs.Cron.Parse.{
  month_names, day_names, parsed, refused, wrong_fields, words, parse_day_of_week_field, parse_cron,
}
use waffle.Jobs.Cron.Parse.Valid.{parse_cron-IsExpr}

abbrev same_case : Text → Text
same_case t = t

-- Three times an hour from nine to eleven on the first of May or June, at weekends.
abbrev weekends : CronExpr
weekends = record {
  minute = pos 0 ∷ pos 20 ∷ pos 40 ∷ [];
  hour = pos 9 ∷ pos 10 ∷ [];
  day_of_month = pos 1 ∷ [];
  month = pos 5 ∷ pos 6 ∷ [];
  day_of_week = pos 0 ∷ pos 6 ∷ [];
}

program : Unit {0}
unfolding parse_cron parse_day_of_week_field words split cut atoi add_64 ◌+ℤ◌
program = tt

by_names :
    parse_cron same_case month_names day_names (codes "  */20 9-10 1 may-jun sat,7 ")
    ≡ parsed weekends
unfolding program
by_names = refl

no_step : (part : Text) → cut b'/' part ≡ none → StepFits part
no_step part e before after step c a = cc

one_step :
    (part before after : Text) (step : ℤ)
    → cut b'/' part ≡ some (before, after)
    → atoi after ≡ some step
    → step <ℤ pos fits
    → StepFits part
one_step part before after step c a f before' after' step' c' a' =
    let e : after' ≡ after = cc in
    let a'' : atoi after ≡ some step' = rw e at a' in let same : step' ≡ step = cc in rw same f

parse_cron-IsExpr_example : IsExpr weekends
unfolding program
parse_cron-IsExpr_example =
    parse_cron-IsExpr same_case month_names day_names (codes "  */20 9-10 1 may-jun sat,7 ")
      weekends
      (
        (one_step (codes "*/20") (codes "*") (codes "20") (pos 20) refl refl (omega arith), tt),
        (no_step (codes "9-10") refl, tt),
        (no_step (codes "1") refl, tt),
        (no_step (codes "5-6") refl, tt),
        (no_step (codes "6") refl, (no_step (codes "0") refl, tt)),
      )
      refl

four_fields : parse_cron same_case month_names day_names (codes "0 0 * *") ≡ refused wrong_fields
unfolding program
four_fields = refl

-- The digit 7 stands for Sunday, also as the end of a range.
sunday_only : parse_day_of_week_field same_case day_names (codes "0-7") ≡ ok (pos 0 ∷ [])
unfolding program
sunday_only = refl

friday_to_sunday : parse_day_of_week_field same_case day_names (codes "5-7") ≡ err out_of_bounds
unfolding program
friday_to_sunday = refl
