-- ===== src/Jobs/Cron/Parse.antt =====
-- pantry/jobs/cron.go: ParseCron. The change of case is a parameter, and so is the order in which
-- Go walks the maps of names, as the list of their entries.
pub mod Valid
mod Examples
use waffle.Base.{
  ℕ, zero, suc, ◌-◌, Bool, true, false, Option, none, some, List, [], ◌∷◌, ◌++◌, ℤ, Text, length,
  has_prefix, if◌then◌else◌,
}
use waffle.Urls.Spaces.{is_space_1, is_space_2, is_space_3, trim_space}
use waffle.Validate.Formats.{codes}
use waffle.Jobs.Cron.Fields.{FieldError, Parsed, ok, err, parse_field}
use waffle.Jobs.Cron.Schedule.{CronExpr}
use waffle.Jobs.Cron.Schedule.Predefined.{parse_predefined}

-- `strings.Fields`: the texts between white space, with the bytes of the current one.
abbrev pub end_word : Text → List Text → List Text
end_word [] rest = rest
end_word (b ∷ bs) rest = (b ∷ bs) ∷ rest

unfoldable pub words : Text → Text → List Text
words word [] = end_word word []
words word (b ∷ []) = if is_space_1 b then end_word word [] else end_word (word ++ b ∷ []) []
words word (b ∷ c ∷ []) =
    let after_1 = words [] (c ∷ []) in
    let goes_on = words (word ++ b ∷ []) (c ∷ []) in
    if is_space_1 b
    then end_word word after_1
    else (if is_space_2 b c then end_word word [] else goes_on)
words word (b ∷ c ∷ d ∷ bs) =
    let after_1 = words [] (c ∷ d ∷ bs) in
    let after_2 = words [] (d ∷ bs) in
    let after_3 = words [] bs in
    let goes_on = words (word ++ b ∷ []) (c ∷ d ∷ bs) in
    if is_space_1 b
    then end_word word after_1
    else (if is_space_2 b c
        then end_word word after_2
        else (if is_space_3 b c d then end_word word after_3 else goes_on))

-- `strings.ReplaceAll` of a text that is not empty; `skip` bytes belong to a place that is replaced
-- already.
unfoldable pub replace_all : Text → Text → ℕ → Text → Text
unfolding has_prefix
replace_all old new skip [] = []
replace_all old new zero (b ∷ bs) =
    let replaced = replace_all old new (length old - 1) bs in
    let kept = replace_all old new zero bs in
    if has_prefix (b ∷ bs) old then new ++ replaced else b ∷ kept
replace_all old new (suc skip) (b ∷ bs) = replace_all old new skip bs

abbrev pub Names : Type 0
Names = List (Text × Text)

abbrev pub month_names : Names
month_names =
    (codes "jan", codes "1")
    ∷ (codes "feb", codes "2")
    ∷ (codes "mar", codes "3")
    ∷ (codes "apr", codes "4")
    ∷ (codes "may", codes "5")
    ∷ (codes "jun", codes "6")
    ∷ (codes "jul", codes "7")
    ∷ (codes "aug", codes "8")
    ∷ (codes "sep", codes "9")
    ∷ (codes "oct", codes "10")
    ∷ (codes "nov", codes "11")
    ∷ (codes "dec", codes "12")
    ∷ []

abbrev pub day_names : Names
day_names =
    (codes "sun", codes "0")
    ∷ (codes "mon", codes "1")
    ∷ (codes "tue", codes "2")
    ∷ (codes "wed", codes "3")
    ∷ (codes "thu", codes "4")
    ∷ (codes "fri", codes "5")
    ∷ (codes "sat", codes "6")
    ∷ []

unfoldable pub replace_names : Names → Text → Text
unfolding replace_all
replace_names [] s = s
replace_names ((name, num) ∷ names) s = replace_names names (replace_all name num 0 s)

pub data CronError : Type 0 where
  empty_expr unknown_predefined wrong_fields : CronError
  minute_field hour_field day_field month_field weekday_field : FieldError → CronError

pub data ParsedCron : Type 0 where
  parsed : CronExpr → ParsedCron
  refused : CronError → ParsedCron

-- Go on with the values of a field, or return its error.
abbrev pub and_then :
    (FieldError → CronError) → Parsed (List ℤ) → (List ℤ → ParsedCron) → ParsedCron
and_then wrap (ok vs) next = next vs
and_then wrap (err e) next = refused (wrap e)

abbrev pub Five : Type 0
Five = Text × Text × Text × Text × Text

-- The five fields, without the seconds.
unfoldable pub five_fields : List Text → Option Five
five_fields (minute ∷ hour ∷ day ∷ month ∷ weekday ∷ []) = some (minute, hour, day, month, weekday)
five_fields (second ∷ minute ∷ hour ∷ day ∷ month ∷ weekday ∷ []) =
    some (minute, hour, day, month, weekday)
five_fields _ = none

abbrev pub month_text : (Text → Text) → Names → Text → Text
month_text to_lower months field = replace_names months (to_lower field)

unfoldable pub parse_month_field : (Text → Text) → Names → Text → Parsed (List ℤ)
unfolding parse_field replace_names
parse_month_field to_lower months field = parse_field 1 12 (month_text to_lower months field)

-- The digit 7 becomes 0, wherever it stands.
abbrev pub weekday_text : (Text → Text) → Names → Text → Text
weekday_text to_lower days field =
    replace_all (codes "7") (codes "0") 0 (replace_names days (to_lower field))

unfoldable pub parse_day_of_week_field : (Text → Text) → Names → Text → Parsed (List ℤ)
unfolding parse_field replace_names
parse_day_of_week_field to_lower days field = parse_field 0 6 (weekday_text to_lower days field)

abbrev pub or_unknown : Option CronExpr → ParsedCron
or_unknown none = refused unknown_predefined
or_unknown (some c) = parsed c

module _ (to_lower : Text → Text) (months days : Names) where
  unfoldable pub parse_five : Five → ParsedCron
  unfolding parse_month_field parse_day_of_week_field
  parse_five (minute_str, hour_str, day_str, month_str, weekday_str) =
      and_then minute_field (parse_field 0 59 minute_str) λ minutes.
        and_then hour_field (parse_field 0 23 hour_str) λ hours.
          and_then day_field (parse_field 1 31 day_str) λ month_days.
            and_then month_field (parse_month_field to_lower months month_str) λ month_values.
              and_then weekday_field (parse_day_of_week_field to_lower days weekday_str) λ weekdays.
                parsed (record {
                  minute = minutes;
                  hour = hours;
                  day_of_month = month_days;
                  month = month_values;
                  day_of_week = weekdays;
                })

  abbrev pub or_wrong_fields : Option Five → ParsedCron
  or_wrong_fields none = refused wrong_fields
  or_wrong_fields (some five) = parse_five five

  abbrev pub parse_trimmed : Text → ParsedCron
  parse_trimmed [] = refused empty_expr
  parse_trimmed (b ∷ bs) =
      if has_prefix (b ∷ bs) (codes "@")
      then or_unknown (parse_predefined to_lower (b ∷ bs))
      else or_wrong_fields (five_fields (words [] (b ∷ bs)))

  unfoldable pub parse_cron : Text → ParsedCron
  unfolding parse_five parse_predefined five_fields words trim_space has_prefix
  parse_cron expr = parse_trimmed (trim_space expr)
