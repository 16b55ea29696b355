-- ===== src/Jobs/Cron/Schedule/Predefined.antt =====
-- pantry/jobs/cron.go: parsePredefined. The change of case is a parameter.
use waffle.Base.{
  ◌||◌, Bool-cases, inl, inr, Option, none, some, List, [], ◌∷◌, ℤ, pos, Text, text_eq, arith, ℕ,
  ◌≤◌, ◌≢◌, if◌then◌else◌,
}
use waffle.Validate.Formats.{codes}
use waffle.Jobs.Cron.Values.{all_values}
use waffle.Jobs.Cron.Sorting.{IsIncreasing}
use waffle.Jobs.Cron.Bounds.{AllInRange, all_values-InRange}
use waffle.Jobs.Cron.Schedule.{CronExpr}

abbrev pub at_midnight : List ℤ → List ℤ → List ℤ → CronExpr
at_midnight days months weekdays = record {
  minute = pos 0 ∷ [];
  hour = pos 0 ∷ [];
  day_of_month = days;
  month = months;
  day_of_week = weekdays;
}

abbrev pub first_only : List ℤ
first_only = pos 1 ∷ []

abbrev pub any_day : List ℤ
any_day = all_values 1 31

abbrev pub any_month : List ℤ
any_month = all_values 1 12

abbrev pub any_weekday : List ℤ
any_weekday = all_values 0 6

-- None is an error.
unfoldable pub parse_predefined : (Text → Text) → Text → Option CronExpr
unfolding text_eq all_values
parse_predefined to_lower expr =
    let name = to_lower expr in
    if text_eq name (codes "@yearly") || text_eq name (codes "@annually")
    then some (at_midnight first_only first_only any_weekday)
    else (if text_eq name (codes "@monthly")
        then some (at_midnight first_only any_month any_weekday)
        else (if text_eq name (codes "@weekly")
            then some (at_midnight any_day any_month (pos 0 ∷ []))
            else (if text_eq name (codes "@daily") || text_eq name (codes "@midnight")
                then some (at_midnight any_day any_month any_weekday)
                else (if text_eq name (codes "@hourly")
                    then some (record {
                      minute = pos 0 ∷ [];
                      hour = all_values 0 23;
                      day_of_month = any_day;
                      month = any_month;
                      day_of_week = any_weekday;
                    })
                    else none))))

-- What the values of a field are: within the bounds, in increasing order, and at least one.
abbrev pub IsRange : ℕ → ℕ → List ℤ → Type 0
IsRange min max vs = AllInRange min max vs × IsIncreasing vs × (vs ≢ [])

pub record IsExpr (c : CronExpr) : Type 0 where
  pub minutes : IsRange 0 59 c.minute
  pub hours : IsRange 0 23 c.hour
  pub days : IsRange 1 31 c.day_of_month
  pub months : IsRange 1 12 c.month
  pub weekdays : IsRange 0 6 c.day_of_week

abbrev pub IsSomeExpr : Option CronExpr → Type 0
IsSomeExpr none = Unit
IsSomeExpr (some c) = IsExpr c

one_value : (min max v : ℕ) → min ≤ v → v ≤ max → IsRange min max (pos v ∷ [])
one_value min max v l h = (((omega arith, omega arith), tt), (tt, tt), λ e. cc)

all_months : IsRange 1 12 any_month
all_months = all_values-InRange 1 12 (omega arith) (omega arith)

all_days : IsRange 1 31 any_day
all_days = all_values-InRange 1 31 (omega arith) (omega arith)

all_weekdays : IsRange 0 6 any_weekday
all_weekdays = all_values-InRange 0 6 (omega arith) (omega arith)

at_midnight-IsExpr :
    {days months weekdays : List ℤ}
    → IsRange 1 31 days
    → IsRange 1 12 months
    → IsRange 0 6 weekdays
    → IsExpr (at_midnight days months weekdays)
at_midnight-IsExpr d m w = record {
  minutes = one_value 0 59 0 (omega arith) (omega arith);
  hours = one_value 0 23 0 (omega arith) (omega arith);
  days = d;
  months = m;
  weekdays = w;
}

-- What parsePredefined gives has values of every field, within its bounds.
pub parse_predefined-IsExpr :
    (to_lower : Text → Text) (expr : Text) → IsSomeExpr (parse_predefined to_lower expr)
unfolding parse_predefined
parse_predefined-IsExpr to_lower expr =
    let name = to_lower expr in
    let first : IsRange 1 31 first_only = one_value 1 31 1 (omega arith) (omega arith) in
    let january : IsRange 1 12 first_only = one_value 1 12 1 (omega arith) (omega arith) in
    let sunday : IsRange 0 6 (pos 0 ∷ []) = one_value 0 6 0 (omega arith) (omega arith) in
    elim (Bool-cases (text_eq name (codes "@yearly") || text_eq name (codes "@annually"))) [
      | inl e ↦ rw (parse_predefined, e) (at_midnight-IsExpr first january all_weekdays)
      | inr e ↦ elim (Bool-cases (text_eq name (codes "@monthly"))) [
        | inl f ↦ rw (parse_predefined, e, f) (at_midnight-IsExpr first all_months all_weekdays)
        | inr f ↦ elim (Bool-cases (text_eq name (codes "@weekly"))) [
          | inl g ↦ rw (parse_predefined, e, f, g) (at_midnight-IsExpr all_days all_months sunday)
          | inr g ↦
              elim (Bool-cases
                (text_eq name (codes "@daily") || text_eq name (codes "@midnight"))) [
                  | inl h ↦
                      rw (parse_predefined, e, f, g, h)
                        (at_midnight-IsExpr all_days all_months all_weekdays)
                  | inr h ↦ elim (Bool-cases (text_eq name (codes "@hourly"))) [
                    | inl i ↦
                        rw (parse_predefined, e, f, g, h, i)
                          (record {
                            minutes = one_value 0 59 0 (omega arith) (omega arith);
                            hours = all_values-InRange 0 23 (omega arith) (omega arith);
                            days = all_days;
                            months = all_months;
                            weekdays = all_weekdays;
                          })
                    | inr i ↦ rw (parse_predefined, e, f, g, h, i) tt
                  ]
                ]
        ]
      ]
    ]
