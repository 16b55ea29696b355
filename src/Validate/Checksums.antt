-- ===== src/Validate/Checksums.antt =====
-- pantry/validate/rules.go: numbers with a check digit. `digit` is the value of a byte between
-- '0' and '9'; the patterns let no other byte reach it.
pub mod Isbn
pub mod Isbn13
pub mod Luhn
use Prim.Native.String.{String}
use waffle.Base.{
  ℕ, zero, suc, ◌+◌, ◌-◌, ◌*◌, ◌%◌, Bool, true, false, not, ◌&&◌, ◌||◌, List, [], ◌∷◌, ltb, leb,
  eqb, length, Text, reverse_onto, if◌then◌else◌,
}
use waffle.Validate.Patterns.{matches}
use waffle.Validate.Formats.{isbn10_regex, isbn13_regex}

abbrev pub digit : ℕ → ℕ
digit b = b - b'0'

-- `strings.ReplaceAll(s, <byte>, "")`
unfoldable pub without : ℕ → Text → Text
without b [] = []
without b (x ∷ s) = let rest = without b s in if eqb x b then rest else x ∷ rest

-- The value of the last character of an ISBN-10.
abbrev pub check_value : ℕ → ℕ
check_value b = if eqb b b'X' then 10 else digit b

-- The sum of the loop and of the check character; `weight` is 10 - i.
unfoldable pub isbn10_sum : ℕ → Text → ℕ
isbn10_sum weight [] = 0
isbn10_sum weight (b ∷ []) = check_value b
isbn10_sum weight (b ∷ c ∷ s) = digit b * weight + isbn10_sum (weight - 1) (c ∷ s)

abbrev pub is_isbn10 : Text → Bool
is_isbn10 s = matches isbn10_regex s && eqb (isbn10_sum 10 s % 11) 0

-- The loop over the first digits; `odd` is `i%2 != 0`.
unfoldable pub isbn13_sum : Bool → Text → ℕ
isbn13_sum odd [] = 0
isbn13_sum odd (b ∷ []) = 0
isbn13_sum odd (b ∷ c ∷ s) = (if odd then digit b * 3 else digit b) + isbn13_sum (not odd) (c ∷ s)

unfoldable pub last_of : Text → ℕ
last_of [] = 0
last_of (b ∷ []) = b
last_of (b ∷ c ∷ s) = last_of (c ∷ s)

abbrev pub is_isbn13 : Text → Bool
is_isbn13 s =
    matches isbn13_regex s && eqb (digit (last_of s)) ((10 - isbn13_sum false s % 10) % 10)

-- `if s == "" { return "" }`, then hyphens go before the tests, so only the text as it was given
-- counts as empty.
abbrev pub unhyphened : String → (Text → Bool) → Text → String
unhyphened name accepts [] = ""
unhyphened name accepts (b ∷ s) = if accepts (without b'-' (b ∷ s)) then "" else name

unfoldable pub rule_isbn10 : Text → String
unfolding isbn10_sum without
rule_isbn10 s = unhyphened "isbn10" is_isbn10 s

unfoldable pub rule_isbn13 : Text → String
unfolding isbn13_sum last_of without
rule_isbn13 s = unhyphened "isbn13" is_isbn13 s

unfoldable pub rule_isbn : Text → String
unfolding rule_isbn10 rule_isbn13
rule_isbn [] = ""
rule_isbn (b ∷ s) =
    let bare = without b'-' (b ∷ s) in
    if eqb (length bare) 10
    then rule_isbn10 bare
    else (if eqb (length bare) 13 then rule_isbn13 bare else "isbn")

abbrev pub doubled : ℕ → ℕ
doubled d = if ltb 9 (d * 2) then d * 2 - 9 else d * 2

-- The loop over the digits from the last one back.
unfoldable pub luhn_sum : Bool → Text → ℕ
luhn_sum alternate [] = 0
luhn_sum alternate (b ∷ s) =
    (if alternate then doubled (digit b) else digit b) + luhn_sum (not alternate) s

unfoldable pub luhn_valid : Text → Bool
unfolding luhn_sum
luhn_valid s =
    if ltb (length s) 13 || ltb 19 (length s)
    then false
    else eqb (luhn_sum false (reverse_onto s []) % 10) 0

-- The loop of the test for digits: a byte of another character is no digit either.
unfoldable pub all_digits : Text → Bool
all_digits [] = true
all_digits (b ∷ s) = let rest = all_digits s in if ltb b b'0' || ltb b'9' b then false else rest

unfoldable pub rule_credit_card : Text → String
unfolding luhn_valid all_digits without
rule_credit_card [] = ""
rule_credit_card (b ∷ s) =
    let bare = without b'-' (without b' ' (b ∷ s)) in
    if not (all_digits bare)
    then "creditcard"
    else (if not (luhn_valid bare) then "creditcard" else "")
