-- ===== src/Jobs/Cron/Returns.antt =====
-- parseField returns for every text: the fuel of stepValues is never used up.
use waffle.Base.{
  ℕ, ◌^◌, ◌≤◌, ◌<◌, ◌≡◌, ◌≢◌, inl, inr, ◌||◌, some, List, [], ◌∷◌, ℤ, pos, negsuc, ltb_ℤ, leb_ℤ,
  arith, Bool-cases, Option-cases, Text, cut, split, atoi,
}
use waffle.Jobs.Cron.Steps.{step_values-total}
use waffle.Jobs.Cron.Fields.{
  err, stuck, is_star, range_values, single_value, parse_range, parse_field_part, parse_parts,
  parse_field,
}

-- A number that `Atoi` returns has 64 bits.
atoi-lt : (t : Text) (n : ℕ) → atoi t ≡ some (pos n) → n < 0x8000_0000_0000_0000
unfolding atoi
atoi-lt [] n h = cc
atoi-lt (x ∷ xs) n h = ground arith

module _ (min max : ℕ) (l : min ≤ max) (m : max < 2 ^ 32) where
  module _ (step : ℕ) (p : 0 < step) (w : step < 0x8000_0000_0000_0000) where
    range_values-returns : (start end : ℤ) → range_values min max (pos step) start end ≢ err stuck
    unfolding range_values
    range_values-returns (negsuc a) end h = ground arith
    range_values-returns (pos a) (negsuc b) h = ground arith
    range_values-returns (pos a) (pos b) h =
        elim (Bool-cases
          (ltb_ℤ (pos a) (pos min) || ltb_ℤ (pos max) (pos b) || ltb_ℤ (pos b) (pos a))) [
            | inl bad ↦ ground arith
            | inr good ↦
                let (vs, e) = step_values-total a b step (ground arith) (ground arith) p w in
                ground arith
          ]

    parse_range-returns : (part : Text) → parse_range min max (pos step) part ≢ err stuck
    unfolding parse_range single_value
    parse_range-returns part h = elim (Bool-cases (is_star part)) [
      | inl s ↦ let (vs, e) = step_values-total min max step l m p w in ground arith
      | inr n ↦ elim (Option-cases (cut b'-' part)) [
        | inl c ↦ elim (Option-cases (atoi part)) [
          | inl e ↦ ground arith
          | inr (val, e) ↦ ground arith
        ]
        | inr ((a, b), c) ↦ elim (Option-cases (atoi a)) [
          | inl e ↦ ground arith
          | inr (start, e) ↦ elim (Option-cases (atoi b)) [
            | inl e' ↦ ground arith
            | inr (end, e') ↦ range_values-returns start end (rw (n, c, parse_range, e, e') at h)
          ]
        ]
      ]
    ]

  parse_field_part-returns : (part : Text) → parse_field_part min max part ≢ err stuck
  unfolding parse_field_part
  parse_field_part-returns part h = elim (Option-cases (cut b'/' part)) [
    | inl c ↦ parse_range-returns 1 (omega arith) (omega arith) part (rw (c, parse_field_part) at h)
    | inr ((a, b), c) ↦ elim (Option-cases (atoi b)) [
      | inl e ↦ ground arith
      | inr (negsuc s, e) ↦ ground arith
      | inr (pos s, e) ↦ elim (Bool-cases (leb_ℤ (pos s) (pos 0))) [
        | inl z ↦ ground arith
        | inr z ↦
            parse_range-returns s (ground arith) (atoi-lt b s e) a
              (rw (c, parse_field_part, e, z) at h)
      ]
    ]
  ]

  parse_parts-returns : (parts : List Text) → parse_parts min max parts ≢ err stuck
  unfolding parse_parts
  parse_parts-returns [] h = ground arith
  parse_parts-returns (part ∷ parts) h =
      ground (arith, parse_field_part-returns part, parse_parts-returns parts)

  -- `parseField` returns a list of values or an error for every text: no step, however long, keeps
  -- the loop of `stepValues` going for ever.
  pub parse_field-returns : (field : Text) → parse_field min max field ≢ err stuck
  unfolding parse_field
  parse_field-returns field h = ground (arith, parse_parts-returns (split b',' [] field))
