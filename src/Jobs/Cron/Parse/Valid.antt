-- ===== src/Jobs/Cron/Parse/Valid.antt =====
-- pantry/jobs/cron.go: the expressions that ParseCron gives.
use waffle.Base.{
  ◌≡◌, refl, ◌≤◌, ◌<◌, ◌^◌, ℕ, inl, inr, Bool-cases, Option, none, some, List, [], ◌∷◌, ℤ, Text,
  All, has_prefix, arith, split,
}
use waffle.Urls.Spaces.{trim_space}
use waffle.Validate.Formats.{codes}
use waffle.Jobs.Cron.Fields.{FieldError, Parsed, ok, err, parse_field}
use waffle.Jobs.Cron.Bounds.{StepFits, parse_field-InRange}
use waffle.Jobs.Cron.Schedule.{CronExpr}
use waffle.Jobs.Cron.Schedule.Predefined.{
  IsRange, IsExpr, IsSomeExpr, parse_predefined, parse_predefined-IsExpr,
}
use waffle.Jobs.Cron.Parse.{
  Names, CronError, ParsedCron, parsed, and_then, Five, words, five_fields, month_text,
  weekday_text, parse_month_field, parse_day_of_week_field, parse_five, or_unknown, or_wrong_fields,
  parse_trimmed, parse_cron, minute_field, hour_field, day_field, month_field, weekday_field,
}

and_then-parsed :
    (wrap : FieldError → CronError) (r : Parsed (List ℤ)) (next : List ℤ → ParsedCron)
    (c : CronExpr)
    → and_then wrap r next ≡ parsed c
    → (vs : List ℤ) × (r ≡ ok vs) × (next vs ≡ parsed c)
and_then-parsed wrap (ok vs) next c h = (vs, refl, h)
and_then-parsed wrap (err e) next c h = cc

or_unknown-IsExpr :
    (o : Option CronExpr) (c : CronExpr) → IsSomeExpr o → or_unknown o ≡ parsed c → IsExpr c
or_unknown-IsExpr none c s h = cc
or_unknown-IsExpr (some d) c s h = let e : d ≡ c = cc in rw (← e) s

-- No step of a field can overflow.
abbrev pub Steps : Text → Type 0
Steps field = All StepFits (split b',' [] field)

abbrev Bounds : ℕ → ℕ → Type 0
Bounds min max = (min ≤ max) × (max < 2 ^ 32)

field-IsRange :
    (min max : ℕ) (field : Text) (vs : List ℤ)
    → Bounds min max
    → Steps field
    → parse_field min max field ≡ ok vs
    → IsRange min max vs
field-IsRange min max field vs (l, m) s e = parse_field-InRange min max field vs l m s e

minute-Bounds : Bounds 0 59
minute-Bounds = omega arith

hour-Bounds : Bounds 0 23
hour-Bounds = omega arith

day-Bounds : Bounds 1 31
day-Bounds = omega arith

month-Bounds : Bounds 1 12
month-Bounds = omega arith

weekday-Bounds : Bounds 0 6
weekday-Bounds = omega arith

module _ (to_lower : Text → Text) (months days : Names) where
  abbrev pub FiveSteps : Option Five → Type 0
  FiveSteps none = Unit
  FiveSteps (some (minute, hour, day, month, weekday)) =
      Steps minute
      × Steps hour
      × Steps day
      × Steps (month_text to_lower months month)
      × Steps (weekday_text to_lower days weekday)

  -- The steps of an expression in fields, as its fields are read.
  abbrev pub ExprSteps : Text → Type 0
  ExprSteps expr = FiveSteps (five_fields (words [] (trim_space expr)))

  parse_five-IsExpr :
      (five : Five) (c : CronExpr)
      → FiveSteps (some five)
      → parse_five to_lower months days five ≡ parsed c
      → IsExpr c
  unfolding parse_five parse_month_field parse_day_of_week_field
  parse_five-IsExpr (minute, hour, day, month, weekday) c (m, h, d, mo, w) e =
      let (ms, me, e1) = and_then-parsed minute_field _ _ c e in
      let (hs, he, e2) = and_then-parsed hour_field _ _ c e1 in
      let (ds, de, e3) = and_then-parsed day_field _ _ c e2 in
      let (mos, moe, e4) = and_then-parsed month_field _ _ c e3 in
      let (ws, we, e5) = and_then-parsed weekday_field _ _ c e4 in
      let same : record { minute = ms; hour = hs; day_of_month = ds; month = mos; day_of_week = ws }
          ≡ c =
        ground arith in
      rw (← same) (record {
        minutes = field-IsRange 0 59 minute ms minute-Bounds m me;
        hours = field-IsRange 0 23 hour hs hour-Bounds h he;
        days = field-IsRange 1 31 day ds day-Bounds d de;
        months = field-IsRange 1 12 _ mos month-Bounds mo moe;
        weekdays = field-IsRange 0 6 _ ws weekday-Bounds w we;
      })

  or_wrong_fields-IsExpr :
      (o : Option Five) (c : CronExpr)
      → FiveSteps o
      → or_wrong_fields to_lower months days o ≡ parsed c
      → IsExpr c
  or_wrong_fields-IsExpr none c s h = cc
  or_wrong_fields-IsExpr (some five) c s h = parse_five-IsExpr five c s h

  parse_trimmed-IsExpr :
      (t : Text) (c : CronExpr)
      → FiveSteps (five_fields (words [] t))
      → parse_trimmed to_lower months days t ≡ parsed c
      → IsExpr c
  parse_trimmed-IsExpr [] c s h = cc
  parse_trimmed-IsExpr (b ∷ bs) c s h = elim (Bool-cases (has_prefix (b ∷ bs) (codes "@"))) [
    | inl at ↦
        or_unknown-IsExpr (parse_predefined to_lower (b ∷ bs)) c
          (parse_predefined-IsExpr to_lower (b ∷ bs)) (rw (at, parse_trimmed) at h)
    | inr plain ↦
        or_wrong_fields-IsExpr (five_fields (words [] (b ∷ bs))) c s
          (rw (plain, parse_trimmed) at h)
  ]

  -- An expression that ParseCron accepts, predefined or in five or six fields, has in each field
  -- values within the bounds of the field, each once and in increasing order, and at least one.
  -- This holds for any order of the names in Go's maps, where no step could overflow.
  pub parse_cron-IsExpr :
      (expr : Text) (c : CronExpr)
      → ExprSteps expr
      → parse_cron to_lower months days expr ≡ parsed c
      → IsExpr c
  unfolding parse_cron
  parse_cron-IsExpr expr c s h = parse_trimmed-IsExpr (trim_space expr) c s h
