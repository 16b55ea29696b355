-- ===== src/Validate/Checksums/Isbn13.antt =====
-- pantry/validate/rules.go: what the test of an ISBN-13 means, and which errors it finds.
use waffle.Base.{
  ℕ, zero, suc, ◌+◌, ◌-◌, ◌*◌, ◌%◌, ◌≡◌, ◌↔◌, refl, sym, ◌∙◌, Bool, true, false, not, [], ◌∷◌, ◌++◌,
  eqb, length, All, Text, arith, if◌then◌else◌,
}
use waffle.Validate.Patterns.{Describes, matches, matches_lem, byte}
use waffle.Validate.Formats.{times, digits, isbn13_regex}
use waffle.Validate.Checksums.{digit, isbn13_sum, last_of, is_isbn13}
use waffle.Validate.Checksums.Isbn.{IsDigit, times-suc, no_more, both}

-- The weighted sum of all digits: 1, 3, 1, 3 and so on.
unfoldable pub weighted_sum : Bool → Text → ℕ
weighted_sum odd [] = 0
weighted_sum odd (b ∷ s) = (if odd then digit b * 3 else digit b) + weighted_sum (not odd) s

-- The standard's own words: 13 digits whose weighted sum is a multiple of ten.
abbrev pub IsIsbn13 : Text → Type 0
IsIsbn13 s = (length s ≡ 13) × All IsDigit s × (weighted_sum false s % 10 ≡ 0)

times-digits :
    (n : ℕ) (s : Text) → Describes (times n (byte digits)) s → (length s ≡ n) × All IsDigit s
times-digits zero s h = rw (no_more s h) (refl, tt)
times-digits (suc n) s h =
    let (b, u, e, d, k) = times-suc n s h in
    let (size, others) = times-digits n u k in rw e (omega (arith, size), (d, others))

digits-times :
    (n : ℕ) (s : Text) → length s ≡ n → All IsDigit s → Describes (times n (byte digits)) s
unfolding Describes
digits-times zero [] e h = refl
digits-times zero (b ∷ s) e h = absurd (omega arith)
digits-times (suc n) [] e h = absurd (omega arith)
digits-times (suc n) (b ∷ s) e (d, h) =
    (b ∷ [], s, refl, (b, refl, ground arith), digits-times n s (omega arith) h)

last_odd : Bool → Text → Bool
last_odd odd [] = odd
last_odd odd (b ∷ s) = if eqb (length s % 2) 0 then odd else not odd

weighted_sum-last :
    (odd : Bool) (b : ℕ) (s : Text)
    → let last = last_of (b ∷ s) in
      weighted_sum odd (b ∷ s)
      ≡ isbn13_sum odd (b ∷ s) + (if last_odd odd (b ∷ s) then digit last * 3 else digit last)
unfolding weighted_sum isbn13_sum last_of last_odd
weighted_sum-last odd b [] = omega arith
weighted_sum-last odd b (c ∷ s) = ground (arith, weighted_sum-last (not odd) c s)

last_of-IsDigit : (b : ℕ) (s : Text) → All IsDigit (b ∷ s) → IsDigit (last_of (b ∷ s))
unfolding last_of
last_of-IsDigit b [] (d, h) = d
last_of-IsDigit b (c ∷ s) (d, h) = last_of-IsDigit c s h

last_odd-13 : (b : ℕ) (s : Text) → length (b ∷ s) ≡ 13 → last_odd false (b ∷ s) ≡ false
unfolding last_odd
last_odd-13 b s e = ground arith

check_digit_lem :
    (s : Text)
    → length s ≡ 13
    → All IsDigit s
    → (eqb (digit (last_of s)) ((10 - isbn13_sum false s % 10) % 10) ≡ true)
      ↔ (weighted_sum false s % 10 ≡ 0)
check_digit_lem [] e h = absurd (omega arith)
check_digit_lem (b ∷ s) e h =
    let (low, high) = last_of-IsDigit b s h in
    let total = weighted_sum-last false b s in
    let one_weight : last_odd false (b ∷ s) ≡ false = last_odd-13 b s e in
    let sum : weighted_sum false (b ∷ s) ≡ isbn13_sum false (b ∷ s) + digit (last_of (b ∷ s)) =
      rw one_weight at total in
    (λ k. ground arith, λ k. ground arith)

-- The tests of an ISBN-13 accept a text just if it is 13 digits whose weighted sum is a multiple
-- of ten.
pub is_isbn13_lem : (s : Text) → (is_isbn13 s ≡ true) ↔ IsIsbn13 s
is_isbn13_lem s = (
  λ h.
      let (m, check) =
        both (matches isbn13_regex s)
          (eqb (digit (last_of s)) ((10 - isbn13_sum false s % 10) % 10)) h in
      let (size, ds) = times-digits 13 s ((matches_lem isbn13_regex s).0 m) in
      (size, ds, (check_digit_lem s size ds).0 check),
  λ (size, ds, sum).
      rw
        (
          (matches_lem isbn13_regex s).1 (digits-times 13 s size ds),
          (check_digit_lem s size ds).1 sum,
        )
        refl,
)

weighted_sum-single :
    (odd : Bool) (xs ys : Text) (a b : ℕ)
    → All IsDigit (xs ++ a ∷ ys)
    → All IsDigit (xs ++ b ∷ ys)
    → weighted_sum odd (xs ++ a ∷ ys) % 10 ≡ weighted_sum odd (xs ++ b ∷ ys) % 10
    → a ≡ b
unfolding weighted_sum
weighted_sum-single odd [] ys a b h k e = ground arith
weighted_sum-single odd (x ∷ xs) ys a b (d, h) (d', k) e =
    weighted_sum-single (not odd) xs ys a b h k (omega (arith, e))

-- Two texts that both pass the tests of an ISBN-13 do not differ in one digit alone.
pub is_isbn13-single :
    (xs ys : Text) (a b : ℕ)
    → is_isbn13 (xs ++ a ∷ ys) ≡ true
    → is_isbn13 (xs ++ b ∷ ys) ≡ true
    → a ≡ b
is_isbn13-single xs ys a b h k =
    let (size, ds, sum) = (is_isbn13_lem (xs ++ a ∷ ys)).0 h in
    let (size', ds', sum') = (is_isbn13_lem (xs ++ b ∷ ys)).0 k in
    weighted_sum-single false xs ys a b ds ds' (sum ∙ sym sum')
