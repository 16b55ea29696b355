-- ===== src/Validate/Checksums/Luhn.antt =====
-- pantry/validate/rules.go: which errors luhnValid finds.
use waffle.Base.{
  ℕ, ◌%◌, ◌≤◌, ◌≡◌, ◌≢◌, sym, ◌∙◌, Bool, true, false, not, [], ◌∷◌, ◌++◌, Text, reverse_onto,
  reverse_onto-append, Bool-cases, inl, inr, arith,
}
use waffle.Validate.Checksums.{luhn_sum, luhn_valid, all_digits}

-- The digits that a place counts for: no two are the same in a doubled place.
luhn_sum-single :
    (alternate : Bool) (xs ys : Text) (a b : ℕ)
    → b'0' ≤ a
    → a ≤ b'9'
    → b'0' ≤ b
    → b ≤ b'9'
    → luhn_sum alternate (xs ++ a ∷ ys) % 10 ≡ luhn_sum alternate (xs ++ b ∷ ys) % 10
    → a ≡ b
unfolding luhn_sum
luhn_sum-single alternate [] ys a b h h' k k' e = ground arith
luhn_sum-single alternate (x ∷ xs) ys a b h h' k k' e =
    luhn_sum-single (not alternate) xs ys a b h h' k k' (omega (arith, e))

all_digits-place :
    (xs ys : Text) (a : ℕ) → all_digits (xs ++ a ∷ ys) ≡ true → (b'0' ≤ a) × (a ≤ b'9')
unfolding all_digits
all_digits-place [] ys a h = ground arith
all_digits-place (x ∷ xs) ys a h = all_digits-place xs ys a (ground arith)

luhn_valid-sum : (s : Text) → luhn_valid s ≡ true → luhn_sum false (reverse_onto s []) % 10 ≡ 0
unfolding luhn_valid
luhn_valid-sum s h = ground arith

reverse-around :
    (xs ys acc : Text) (a : ℕ)
    → reverse_onto (xs ++ a ∷ ys) acc ≡ reverse_onto ys [] ++ a ∷ reverse_onto xs acc
unfolding reverse_onto
reverse-around [] ys acc a = reverse_onto-append ys [] (a ∷ acc)
reverse-around (x ∷ xs) ys acc a = reverse-around xs ys (x ∷ acc) a

-- A number that passes the test does not pass it any more when one of its digits is changed into
-- another digit.
pub luhn_valid-single :
    (xs ys : Text) (a b : ℕ)
    → all_digits (xs ++ a ∷ ys) ≡ true
    → all_digits (xs ++ b ∷ ys) ≡ true
    → luhn_valid (xs ++ a ∷ ys) ≡ true
    → a ≢ b
    → luhn_valid (xs ++ b ∷ ys) ≡ false
luhn_valid-single xs ys a b d d' h different = elim (Bool-cases (luhn_valid (xs ++ b ∷ ys))) [
  | inr refused ↦ refused
  | inl k ↦
      let (low, high) = all_digits-place xs ys a d in
      let (low', high') = all_digits-place xs ys b d' in
      let sum = luhn_valid-sum (xs ++ a ∷ ys) h in
      let sum' = luhn_valid-sum (xs ++ b ∷ ys) k in
      absurd (
        different (
          luhn_sum-single false (reverse_onto ys []) (reverse_onto xs []) a b low high low' high' (
            (rw (reverse-around xs ys [] a) at sum)
            ∙ sym (rw (reverse-around xs ys [] b) at sum'))))
]
