-- ===== src/Jobs/Cron/Fields.antt =====
-- parseField and parseFieldPart: the values of one cron field. `strings.Index`, `strings.Split`
-- and `strconv.Atoi` are written out for the bytes that they are called with.
use waffle.Base.{
  ℕ, Bool, false, ◌||◌, Option, none, some, List, [], ◌∷◌, ◌++◌, ℤ, pos, negsuc, eqb, leb_ℤ, ltb_ℤ,
  if◌then◌else◌, cut, Text, split, atoi,
}
use waffle.Jobs.Cron.Values.{all_values, step_values, unique_sorted}

-- The errors of a field; `no_values` stands for "no valid values" and `stuck` for a loop that
-- does not return.
pub data FieldError : Type 0 where
  invalid_step invalid_start invalid_end invalid_value out_of_bounds no_values stuck : FieldError

pub data Parsed (A : Type 0) : Type 0 where
  ok : A → Parsed A
  err : FieldError → Parsed A

infixl 5 ◌>>=◌
abbrev pub ◌>>=◌ : {A B : Type 0} → Parsed A → (A → Parsed B) → Parsed B
ok a >>= f = f a
err e >>= f = err e

abbrev pub or_err : {A : Type 0} → FieldError → Option A → Parsed A
or_err e none = err e
or_err e (some a) = ok a

abbrev pub star : Text
star = b'*' ∷ []

abbrev pub is_star : Text → Bool
is_star (x ∷ []) = eqb x b'*'
is_star _ = false

-- The range `start-end`, both read.
unfoldable pub range_values : ℕ → ℕ → ℤ → ℤ → ℤ → Parsed (List ℤ)
unfolding step_values
range_values min max step start end =
    if ltb_ℤ start (pos min) || ltb_ℤ (pos max) end || ltb_ℤ end start
    then err out_of_bounds
    else elim start [
      | negsuc a ↦ err out_of_bounds
      | pos a ↦ elim end [
        | negsuc b ↦ err out_of_bounds
        | pos b ↦ or_err stuck (step_values a b step)
      ]
    ]

unfoldable pub single_value : ℕ → ℕ → ℤ → Parsed (List ℤ)
single_value min max val =
    if ltb_ℤ val (pos min) || ltb_ℤ (pos max) val then err out_of_bounds else ok (val ∷ [])

-- What `parseFieldPart` does once the step is known and is not part of the text any more.
unfoldable pub parse_range : ℕ → ℕ → ℤ → Text → Parsed (List ℤ)
unfolding step_values range_values single_value
parse_range min max step part =
    if is_star part then or_err stuck (step_values min max step) else elim (cut b'-' part) [
      | some (start_str, end_str) ↦ do
        start ← or_err invalid_start (atoi start_str)
        end ← or_err invalid_end (atoi end_str)
        range_values min max step start end
      | none ↦ do val ← or_err invalid_value (atoi part); single_value min max val
    ]

unfoldable pub parse_field_part : ℕ → ℕ → Text → Parsed (List ℤ)
unfolding parse_range
parse_field_part min max part = elim (cut b'/' part) [
  | none ↦ parse_range min max (pos 1) part
  | some (part', step_str) ↦ do
    step ← or_err invalid_step (atoi step_str)
    if leb_ℤ step (pos 0) then err invalid_step else parse_range min max step part'
]

-- The loop of `parseField` over the parts.
unfoldable pub parse_parts : ℕ → ℕ → List Text → Parsed (List ℤ)
unfolding parse_field_part
parse_parts min max [] = ok []
parse_parts min max (part ∷ parts) = do
  values ← parse_field_part min max part
  rest ← parse_parts min max parts
  ok (values ++ rest)

abbrev pub non_empty : List ℤ → Parsed (List ℤ)
non_empty [] = err no_values
non_empty (v ∷ vs) = ok (v ∷ vs)

unfoldable pub parse_field : ℕ → ℕ → Text → Parsed (List ℤ)
unfolding parse_parts all_values unique_sorted
parse_field min max field =
    if is_star field
    then ok (all_values min max)
    else (do values ← parse_parts min max (split b',' [] field); non_empty (unique_sorted values))
