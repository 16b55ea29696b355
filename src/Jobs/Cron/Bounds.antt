-- ===== src/Jobs/Cron/Bounds.antt =====
-- What parseField returns: values in range, each once, in increasing order.
use waffle.Base.{
  ℕ, zero, suc, ◌+◌, ◌-◌, ◌^◌, ◌≤◌, ◌<◌, ◌≡◌, ◌≢◌, refl, ◌⊎◌, inl, inr, ◌||◌, Option, none, some,
  List, [], ◌∷◌, ◌++◌, ℤ, pos, negsuc, ◌<ℤ◌, ◌≤ℤ◌, ltb_ℤ, leb_ℤ, All, arith, Bool-cases,
  Option-cases, if◌then◌else◌, Text, cut, split, atoi,
}
use waffle.Jobs.Cron.Values.{all_values, count_up, step_values, unique_sorted}
use waffle.Jobs.Cron.Sorting.{IsIncreasing, unique_sorted-IsIncreasing, All-of-Elem, Elem-All}
use waffle.Jobs.Cron.Steps.{IsStep, step_values-IsStep}
use waffle.Jobs.Cron.Fields.{
  Parsed, ok, err, ◌>>=◌, FieldError, stuck, invalid_start, invalid_end, invalid_value,
  invalid_step, or_err, is_star, range_values, single_value, parse_range, parse_field_part,
  parse_parts, non_empty, parse_field,
}

abbrev pub InRange : ℕ → ℕ → ℤ → Type 0
InRange min max v = (pos min ≤ℤ v) × (v ≤ℤ pos max)

abbrev pub AllInRange : ℕ → ℕ → List ℤ → Type 0
AllInRange min max = All (InRange min max)

-- A step that cannot overflow.
abbrev pub fits : ℕ
fits = 2 ^ 62

step_values-InRange :
    (lo hi min max step : ℕ) (vs : List ℤ)
    → min ≤ lo
    → hi ≤ max
    → max < 2 ^ 32
    → 0 < step
    → step < fits
    → step_values lo hi (pos step) ≡ some vs
    → AllInRange min max vs
step_values-InRange lo hi min max step vs l h m p f e =
    let (vs', e', iff) = step_values-IsStep lo hi step p (omega arith) in
    let same : vs' ≡ vs = cc (e, e') in
    All-of-Elem (InRange min max) vs (λ v d. in_range v ((iff v).0 (rw same d)))
  where
    in_range : (v : ℤ) → IsStep lo hi step v → InRange min max v
    in_range v (k, e, le) = rw e (omega arith, omega arith)

or_err-ok : {A : Type 0} (e : FieldError) (o : Option A) (a : A) → or_err e o ≡ ok a → o ≡ some a
or_err-ok e none a h = cc
or_err-ok e (some b) a h = ground arith

>>=-ok :
    {A B : Type 0} (e : FieldError) (o : Option A) (f : A → Parsed B) (b : B)
    → (or_err e o >>= f) ≡ ok b
    → (a : A) × (o ≡ some a) × (f a ≡ ok b)
>>=-ok e (some a) f b h = (a, refl, h)
>>=-ok e none f b h = cc

module _ (min max : ℕ) (m : max < 2 ^ 32) (step : ℕ) (p : 0 < step) (f : step < fits) where
  range_values-InRange :
      (start end : ℤ) (vs : List ℤ)
      → range_values min max (pos step) start end ≡ ok vs
      → AllInRange min max vs
  unfolding range_values
  range_values-InRange (negsuc a) end vs h = ground arith
  range_values-InRange (pos a) (negsuc b) vs h = ground arith
  range_values-InRange (pos a) (pos b) vs h = ground (
    arith,
    step_values-InRange a b min max step vs,
    or_err-ok stuck (step_values a b (pos step)) vs,
  )

  single_value-InRange :
      (val : ℤ) (vs : List ℤ) → single_value min max val ≡ ok vs → AllInRange min max vs
  unfolding single_value
  single_value-InRange val vs h = elim (Bool-cases (ltb_ℤ val (pos min) || ltb_ℤ (pos max) val)) [
    | inl bad ↦ absurd (ground arith)
    | inr good ↦
        let e : vs ≡ val ∷ [] = ground arith in
        let lower : pos min ≤ℤ val = ground arith in
        let upper : val ≤ℤ pos max = ground arith in rw e ((lower, upper), tt)
  ]

  parse_range-InRange :
      (part : Text) (vs : List ℤ)
      → parse_range min max (pos step) part ≡ ok vs
      → AllInRange min max vs
  unfolding parse_range
  parse_range-InRange part vs h = elim (Bool-cases (is_star part)) [
    | inl s ↦
        let h' : or_err stuck (step_values min max (pos step)) ≡ ok vs = rw s at h in
        step_values-InRange min max min max step vs (omega arith) (omega arith) m p f
          (or_err-ok stuck _ vs h')
    | inr n ↦ elim (Option-cases (cut b'-' part)) [
      | inl c ↦
          let h' : (or_err invalid_value (atoi part) >>= λ val. single_value min max val) ≡ ok vs =
            rw (n, c, parse_range) at h in
          let (val, _, e) = >>=-ok invalid_value (atoi part) (single_value min max) vs h' in
          single_value-InRange val vs e
      | inr ((a, b), c) ↦
          let h' : (or_err invalid_start (atoi a) >>= λ start.
          or_err invalid_end (atoi b) >>= λ end. range_values min max (pos step) start end)
              ≡ ok vs =
            rw (n, c, parse_range) at h in
          let inner = λ (start : ℤ).
            or_err invalid_end (atoi b) >>= λ end. range_values min max (pos step) start end in
          let (start, _, e) = >>=-ok invalid_start (atoi a) inner vs h' in
          let (end, _, e') =
            >>=-ok invalid_end (atoi b) (range_values min max (pos step) start) vs e in
          range_values-InRange start end vs e'
    ]
  ]

abbrev pub StepFits : Text → Type 0
StepFits part =
    (before after : Text) (step : ℤ)
    → cut b'/' part ≡ some (before, after)
    → atoi after ≡ some step
    → step <ℤ pos fits

pub Parsed-cases :
    {A : Type 0} (r : Parsed A) → ((e : FieldError) × (r ≡ err e)) ⊎ ((a : A) × (r ≡ ok a))
Parsed-cases (ok a) = inr (a, refl)
Parsed-cases (err e) = inl (e, refl)

module _ (min max : ℕ) (m : max < 2 ^ 32) where
  abbrev stepped : Text → ℤ → Parsed (List ℤ)
  stepped a step = if leb_ℤ step (pos 0) then err invalid_step else parse_range min max step a

  parse_field_part-InRange :
      (part : Text) (vs : List ℤ)
      → StepFits part
      → parse_field_part min max part ≡ ok vs
      → AllInRange min max vs
  unfolding parse_field_part
  parse_field_part-InRange part vs f h = elim (Option-cases (cut b'/' part)) [
    | inl c ↦
        parse_range-InRange min max m 1 (omega arith) (omega arith) part vs
          (rw (c, parse_field_part) at h)
    | inr ((a, b), c) ↦
        let h' : (or_err invalid_step (atoi b) >>= stepped a) ≡ ok vs =
          rw (c, parse_field_part) at h in
        let (step, s, e) = >>=-ok invalid_step (atoi b) (stepped a) vs h' in
        known a step (f a b step c s) e
  ]
    where
      known :
          (a : Text) (step : ℤ) → step <ℤ pos fits → stepped a step ≡ ok vs → AllInRange min max vs
      known a (negsuc s) l e = absurd (ground arith)
      known a (pos s) l e = elim (Bool-cases (leb_ℤ (pos s) (pos 0))) [
        | inl z ↦ absurd (ground arith)
        | inr z ↦ parse_range-InRange min max m s (ground arith) (omega arith) a vs (rw z at e)
      ]

  All-++ :
      (xs ys : List ℤ)
      → AllInRange min max xs
      → AllInRange min max ys
      → AllInRange min max (xs ++ ys)
  All-++ [] ys h h' = h'
  All-++ (x ∷ xs) ys h h' = (h.0, All-++ xs ys h.1 h')

  parse_parts-InRange :
      (parts : List Text) (vs : List ℤ)
      → All StepFits parts
      → parse_parts min max parts ≡ ok vs
      → AllInRange min max vs
  unfolding parse_parts
  parse_parts-InRange [] vs f h = let e : vs ≡ [] = ground arith in rw e tt
  parse_parts-InRange (part ∷ parts) vs f h = elim (Parsed-cases (parse_field_part min max part)) [
    | inl (e, p) ↦ absurd (ground arith)
    | inr (xs, p) ↦ elim (Parsed-cases (parse_parts min max parts)) [
      | inl (e, q) ↦ absurd (ground arith)
      | inr (ys, q) ↦
          let both : vs ≡ xs ++ ys = ground arith in
          rw both (
            All-++ xs ys (parse_field_part-InRange part xs f.0 p)
              (parse_parts-InRange parts ys f.1 q))
    ]
  ]

  count_up-InRange :
      (n start : ℕ)
      → min ≤ start
      → start + n ≤ max + 1
      → AllInRange min max (count_up n start)
        × All (λ v. pos start ≤ℤ v) (count_up n start)
        × IsIncreasing (count_up n start)
  unfolding count_up
  count_up-InRange zero start l h = (tt, tt, tt)
  count_up-InRange (suc n) start l h =
      let (range, above, up) = count_up-InRange n (start + 1) (omega arith) (omega arith) in
      (
        ((omega arith, omega arith), range),
        (omega arith, All-map (count_up n (start + 1)) above (λ v b. omega arith)),
        (All-map (count_up n (start + 1)) above (λ v b. omega arith), up),
      )
    where
      All-map : {P Q : ℤ → Type 0} (vs : List ℤ) → All P vs → ((v : ℤ) → P v → Q v) → All Q vs
      All-map [] h f = tt
      All-map (v ∷ vs) h f = (f v h.0, All-map vs h.1 f)

pub all_values-InRange :
    (min max : ℕ)
    → max < 2 ^ 32
    → min ≤ max
    → AllInRange min max (all_values min max)
      × IsIncreasing (all_values min max)
      × (all_values min max ≢ [])
unfolding all_values count_up
all_values-InRange min max m l =
    let n : max + 1 - min ≡ suc (max - min) = omega arith in
    let (range, _, up) =
      count_up-InRange min max m (suc (max - min)) min (omega arith) (omega arith) in
    rw n (range, up, λ e. cc)

non_empty-ok : (us vs : List ℤ) → non_empty us ≡ ok vs → (us ≡ vs) × (vs ≢ [])
non_empty-ok [] vs h = absurd (ground arith)
non_empty-ok (u ∷ us) vs h = ground arith

-- Where no step of a field is so long that an addition could overflow, a field that parses gives
-- values between the bounds, each once and in increasing order, and at least one.
pub parse_field-InRange :
    (min max : ℕ) (field : Text) (vs : List ℤ)
    → min ≤ max
    → max < 2 ^ 32
    → All StepFits (split b',' [] field)
    → parse_field min max field ≡ ok vs
    → AllInRange min max vs × IsIncreasing vs × (vs ≢ [])
unfolding parse_field
parse_field-InRange min max field vs l m f h = elim (Bool-cases (is_star field)) [
  | inl s ↦
      let e : all_values min max ≡ vs = ground arith in rw (← e) (all_values-InRange min max m l)
  | inr n ↦ elim (Parsed-cases (parse_parts min max (split b',' [] field))) [
    | inl (e, p) ↦ absurd (ground arith)
    | inr (xs, p) ↦
        let (e, ne) = non_empty-ok (unique_sorted xs) vs (rw (n, p, parse_field) at h) in
        let (up, iff) = unique_sorted-IsIncreasing xs in
        let range = parse_parts-InRange min max m (split b',' [] field) xs f p in
        (
          rw (← e) (
              All-of-Elem (InRange min max) (unique_sorted xs)
                (λ v d. Elem-All (InRange min max) xs v range ((iff v).0 d))),
          rw (← e) up,
          ne,
        )
  ]
]
