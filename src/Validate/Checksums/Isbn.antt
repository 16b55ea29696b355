-- ===== src/Validate/Checksums/Isbn.antt =====
-- pantry/validate/rules.go: which errors the check digit of an ISBN finds.
use waffle.Base.{
  ℕ, zero, suc, ◌+◌, ◌-◌, ◌*◌, ◌%◌, ◌≤◌, ◌≡◌, ◌⊎◌, ◌≢◌, Bool-cases, inl, inr, refl, ap, sym, ◌∙◌,
  Bool, true, false, ◌&&◌, [], ◌∷◌, ◌++◌, eqb, Text, eqb_iff, arith,
}
use waffle.Validate.Patterns.{Describes, matches, matches_lem, byte}
use waffle.Validate.Formats.{times, digits, one, isbn10_regex}
use waffle.Validate.Checksums.{digit, check_value, isbn10_sum, is_isbn10}

abbrev pub IsDigit : ℕ → Type 0
IsDigit b = (b'0' ≤ b) × (b ≤ b'9')

-- `n` digits and a check character.
Isbn10 : ℕ → Text → Type 0
Isbn10 n [] = ⊥
Isbn10 zero (b ∷ []) = IsDigit b ⊎ (b ≡ b'X')
Isbn10 zero (b ∷ c ∷ s) = ⊥
Isbn10 (suc n) (b ∷ s) = IsDigit b × Isbn10 n s

pub times-suc :
    (n : ℕ) (s : Text)
    → Describes (times (suc n) (byte digits)) s
    → (b : ℕ) × (u : Text) × (s ≡ b ∷ u) × IsDigit b × Describes (times n (byte digits)) u
unfolding Describes
times-suc n s (t, u, e, (b, e', h), k) =
    (b, u, e ∙ ap (λ r. r ++ u) e', (ground arith, ground arith), k)

pub no_more : (u : Text) → Describes (times 0 (byte digits)) u → u ≡ []
unfolding Describes
no_more u k = k

times-Isbn10 : (n : ℕ) (s : Text) → Describes (times (suc n) (byte digits)) s → Isbn10 n s
unfolding Isbn10
times-Isbn10 zero s h = let (b, u, e, d, k) = times-suc zero s h in rw (e, no_more u k) (inl d)
times-Isbn10 (suc n) s h =
    let (b, u, e, d, k) = times-suc (suc n) s h in rw (e, Isbn10) (d, times-Isbn10 n u k)

x-Describes : (u : Text) → Describes (one b'X') u → u ≡ b'X' ∷ []
unfolding Describes
x-Describes u (b, e, h) = let same : b ≡ b'X' = ground arith in e ∙ ap (λ x. x ∷ []) same

times_x-Isbn10 :
    (n : ℕ) (s : Text)
    → (t : Text) × (u : Text) × (s ≡ t ++ u)
      × Describes (times n (byte digits)) t
      × Describes (one b'X') u
    → Isbn10 n s
unfolding Isbn10
times_x-Isbn10 zero s (t, u, e, h, k) =
    rw (e ∙ ap (λ r. r ++ u) (no_more t h) ∙ x-Describes u k) (inr refl)
times_x-Isbn10 (suc n) s (t, u, e, h, k) =
    let (b, t', e', d, h') = times-suc n t h in
    rw (e, e', Isbn10) (d, times_x-Isbn10 n (t' ++ u) (t', u, refl, h', k))

matches-Isbn10 : (s : Text) → matches isbn10_regex s ≡ true → Isbn10 9 s
unfolding Describes
matches-Isbn10 s h = elim ((matches_lem isbn10_regex s).0 h) [
  | inl k ↦ times_x-Isbn10 9 s k
  | inr k ↦ times-Isbn10 9 s k
]

-- Each weight has an inverse modulo 11.
mod_11 :
    (w a b r : ℕ) → 1 ≤ w → w ≤ 10 → a ≤ 10 → b ≤ 10 → (a * w + r) % 11 ≡ (b * w + r) % 11 → a ≡ b
mod_11 zero a b r l h ha hb e = absurd (omega arith)
mod_11 (suc zero) a b r l h ha hb e = omega arith
mod_11 (suc (suc zero)) a b r l h ha hb e = omega arith
mod_11 (suc (suc (suc zero))) a b r l h ha hb e = omega arith
mod_11 (suc (suc (suc (suc zero)))) a b r l h ha hb e = omega arith
mod_11 (suc (suc (suc (suc (suc zero))))) a b r l h ha hb e = omega arith
mod_11 (suc (suc (suc (suc (suc (suc zero)))))) a b r l h ha hb e = omega arith
mod_11 (suc (suc (suc (suc (suc (suc (suc zero))))))) a b r l h ha hb e = omega arith
mod_11 (suc (suc (suc (suc (suc (suc (suc (suc zero)))))))) a b r l h ha hb e = omega arith
mod_11 (suc (suc (suc (suc (suc (suc (suc (suc (suc zero))))))))) a b r l h ha hb e = omega arith
mod_11 (suc (suc (suc (suc (suc (suc (suc (suc (suc (suc zero)))))))))) a b r l h ha hb e =
    omega arith
mod_11 (suc (suc (suc (suc (suc (suc (suc (suc (suc (suc (suc w))))))))))) a b r l h ha hb e =
    absurd (omega arith)

isbn10_sum-cons :
    (n w b : ℕ) (s : Text) → Isbn10 n s → isbn10_sum w (b ∷ s) ≡ digit b * w + isbn10_sum (w - 1) s
unfolding isbn10_sum Isbn10
isbn10_sum-cons n w b [] h = absurd h
isbn10_sum-cons n w b (c ∷ s) h = refl

not_last : (x a : ℕ) (xs ys : Text) → ¬ Isbn10 0 (x ∷ (xs ++ a ∷ ys))
unfolding Isbn10
not_last x a [] ys h = h
not_last x a (y ∷ xs) ys h = h

check_value-bound : (b : ℕ) → IsDigit b ⊎ (b ≡ b'X') → check_value b ≤ 10
check_value-bound b h = ground arith

isbn10_sum-single :
    (n w : ℕ) (xs ys : Text) (a b : ℕ)
    → w ≡ suc n
    → n ≤ 9
    → Isbn10 n (xs ++ a ∷ ys)
    → Isbn10 n (xs ++ b ∷ ys)
    → isbn10_sum w (xs ++ a ∷ ys) % 11 ≡ isbn10_sum w (xs ++ b ∷ ys) % 11
    → a ≡ b
unfolding isbn10_sum Isbn10
isbn10_sum-single zero w [] [] a b is l h k e = ground arith
isbn10_sum-single zero w [] (c ∷ ys) a b is l h k e = absurd h
isbn10_sum-single (suc n) w [] [] a b is l h k e = absurd h.1
isbn10_sum-single (suc n) w [] (c ∷ ys) a b is l h k e =
    let same =
      mod_11 w (digit a) (digit b) (isbn10_sum (w - 1) (c ∷ ys)) (omega arith) (omega arith)
        (omega arith) (omega arith) e in
    omega arith
isbn10_sum-single zero w (x ∷ xs) ys a b is l h k e = absurd (not_last x a xs ys h)
isbn10_sum-single (suc n) w (x ∷ xs) ys a b is l (d, h) (d', k) e =
    isbn10_sum-single n (w - 1) xs ys a b (omega arith) (omega arith) h k (
      omega
        (arith, e, isbn10_sum-cons n w x (xs ++ a ∷ ys) h, isbn10_sum-cons n w x (xs ++ b ∷ ys) k))

pub both : (a b : Bool) → a && b ≡ true → (a ≡ true) × (b ≡ true)
both a b h = ground arith

is_isbn10-parts : (s : Text) → is_isbn10 s ≡ true → Isbn10 9 s × (isbn10_sum 10 s % 11 ≡ 0)
is_isbn10-parts s h =
    let (m, sum) = both (matches isbn10_regex s) (eqb (isbn10_sum 10 s % 11) 0) h in
    (matches-Isbn10 s m, (eqb_iff (isbn10_sum 10 s % 11) 0).0 sum)

-- A text that passes the tests of an ISBN-10 does not pass them any more when one character of
-- it, the check character or any other, is changed into another byte.
pub is_isbn10-single :
    (xs ys : Text) (a b : ℕ)
    → is_isbn10 (xs ++ a ∷ ys) ≡ true
    → a ≢ b
    → is_isbn10 (xs ++ b ∷ ys) ≡ false
is_isbn10-single xs ys a b h different = elim (Bool-cases (is_isbn10 (xs ++ b ∷ ys))) [
  | inr refused ↦ refused
  | inl k ↦
      let (shape, sum) = is_isbn10-parts (xs ++ a ∷ ys) h in
      let (shape', sum') = is_isbn10-parts (xs ++ b ∷ ys) k in
      absurd (
        different
          (isbn10_sum-single 9 10 xs ys a b refl (omega arith) shape shape' (sum ∙ sym sum')))
]
