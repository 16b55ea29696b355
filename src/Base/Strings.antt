-- ===== src/Base/Strings.antt =====
-- What the packages strings and strconv do on texts of bytes.
use Prim.Native.Nat.{ℕ, zero, suc, ◌+◌, ◌-◌, ◌*◌, ◌/◌, ◌%◌, ◌≤◌, ◌<◌}
use mathlib.Core.Path.{◌≡◌}
use mathlib.Core.Logic.{◌≢◌, inl, inr}
use mathlib.Core.List.{append_assoc}
use mathlib.Core.Bool.{true, false, ◌&&◌}
use mathlib.Core.Option.{Option, none, some}
use mathlib.Core.List.{List, [], ◌∷◌, ◌++◌}
use native.Mathlib.Omega.{arith}
use waffle.Base.Tests.{ltb, leb, eqb, if◌then◌else◌, Bool-cases}
use waffle.Base.Lists.{All, append-nil}
use waffle.Base.Int.{ℤ, pos, negsuc}
use waffle.Base.Texts.{Text}

-- The text before the first byte `c` and the text after it, if there is one.
unfoldable pub cut : ℕ → Text → Option (Text × Text)
cut c [] = none
cut c (x ∷ xs) =
    let rest = cut c xs in
    if eqb x c then some ([], xs) else elim rest [ none ↦ none | some (a, b) ↦ some (x ∷ a, b) ]

-- `strings.Split(s, ",")`: always at least one part.
unfoldable pub split : ℕ → Text → Text → List Text
split c part [] = part ∷ []
split c part (x ∷ xs) =
    let next = split c [] xs in
    let more = split c (part ++ x ∷ []) xs in if eqb x c then part ∷ next else more

unfoldable pub digits_value : ℕ → Text → Option ℕ
digits_value acc [] = some acc
digits_value acc (x ∷ xs) =
    let rest = digits_value (acc * 10 + (x - b'0')) xs in
    if leb b'0' x && leb x b'9' then rest else none

abbrev pub digits_of : Text → Option ℕ
digits_of [] = none
digits_of (x ∷ xs) = digits_value 0 (x ∷ xs)

-- `strconv.Atoi`: an optional sign, then digits, in the range of 64 bits.
unfoldable pub atoi : Text → Option ℤ
unfolding digits_value
atoi [] = none
atoi (x ∷ xs) =
    if eqb x b'-'
    then elim (digits_of xs) [
      | none ↦ none
      | some zero ↦ some (pos 0)
      | some (suc n) ↦ if ltb n 0x8000_0000_0000_0000 then some (negsuc n) else none
    ]
    else elim (if eqb x b'+' then digits_of xs else digits_of (x ∷ xs)) [
      | none ↦ none
      | some n ↦ if ltb n 0x8000_0000_0000_0000 then some (pos n) else none
    ]

-- The text has no byte `c`.
abbrev pub Lacks : ℕ → Text → Type 0
Lacks c = All (λ b. b ≢ c)

pub split-lacking : (c : ℕ) (part a : Text) → Lacks c a → split c part a ≡ (part ++ a) ∷ []
unfolding split
split-lacking c part [] h = rw (append-nil part)
split-lacking c part (x ∷ xs) (x_ne, h) =
    let no : eqb x c ≡ false = ground arith in
    let again = split-lacking c (part ++ x ∷ []) xs h in
    rw (no, again) (rw (append_assoc part (x ∷ []) xs))

pub split-append :
    (c : ℕ) (part a b : Text) → Lacks c a → split c part (a ++ c ∷ b) ≡ (part ++ a) ∷ split c [] b
unfolding split
split-append c part [] b h =
    let yes_c : eqb c c ≡ true = ground arith in rw (yes_c, append-nil part)
split-append c part (x ∷ xs) b (x_ne, h) =
    let no : eqb x c ≡ false = ground arith in
    let again = split-append c (part ++ x ∷ []) xs b h in
    rw (no, again) (rw (append_assoc part (x ∷ []) xs))

-- `%d` of a number, with fuel, before a text.
unfoldable pub decimal_onto : ℕ → ℕ → Text → Text
decimal_onto zero n acc = acc
decimal_onto (suc fuel) n acc =
    let next = decimal_onto fuel (n / 10) ((b'0' + n % 10) ∷ acc) in
    if ltb n 10 then (b'0' + n % 10) ∷ acc else next

-- Each round has a smaller number.
unfoldable pub decimal : ℕ → Text
unfolding decimal_onto
decimal n = decimal_onto (n + 1) n []

abbrev pub IsDigit : ℕ → Type 0
IsDigit b = (b'0' ≤ b) × (b ≤ b'9')

digits_value-decimal_onto :
    (fuel n : ℕ) (acc : Text)
    → n < fuel
    → digits_value 0 (decimal_onto fuel n acc) ≡ digits_value n acc
unfolding digits_value decimal_onto
digits_value-decimal_onto zero n acc h = absurd (omega arith)
digits_value-decimal_onto (suc fuel) n acc h = elim (Bool-cases (ltb n 10)) [
  | inl small ↦
      let e : 0 * 10 + (b'0' + n % 10 - b'0') ≡ n = ground arith in
      let digit : leb b'0' (b'0' + n % 10) && leb (b'0' + n % 10) b'9' ≡ true = ground arith in
      rw small (rw (digits_value, digit, e))
  | inr large ↦
      let e : n / 10 * 10 + (b'0' + n % 10 - b'0') ≡ n = omega arith in
      let digit : leb b'0' (b'0' + n % 10) && leb (b'0' + n % 10) b'9' ≡ true = ground arith in
      rw (large, digits_value-decimal_onto fuel (n / 10) ((b'0' + n % 10) ∷ acc) (ground arith))
        (rw (digits_value, digit, e))
]

decimal_onto-digits :
    (fuel n : ℕ) (acc : Text) → All IsDigit acc → All IsDigit (decimal_onto fuel n acc)
unfolding decimal_onto
decimal_onto-digits zero n acc h = h
decimal_onto-digits (suc fuel) n acc h =
    let all : All IsDigit ((b'0' + n % 10) ∷ acc) = ((omega arith, omega arith), h) in
    elim (Bool-cases (ltb n 10)) [
      | inl small ↦ rw small all
      | inr large ↦ rw large (decimal_onto-digits fuel (n / 10) _ all)
    ]

pub decimal-digits : (n : ℕ) → All IsDigit (decimal n)
unfolding decimal
decimal-digits n = decimal_onto-digits (n + 1) n [] tt

pub digits-Lacks : (c : ℕ) (t : Text) → c < b'0' → All IsDigit t → Lacks c t
digits-Lacks c [] l h = tt
digits-Lacks c (b ∷ t) l (d, h) = (λ e. absurd (omega arith), digits-Lacks c t l h)

atoi-digits :
    (t : Text) (n : ℕ)
    → All IsDigit t
    → n ≢ 0
    → n < 0x8000_0000_0000_0000
    → digits_value 0 t ≡ some n
    → atoi t ≡ some (pos n)
unfolding atoi
atoi-digits [] n h ne l e = ground (arith, digits_value)
atoi-digits (b ∷ t) n (d, h) ne l e =
    let minus : eqb b b'-' ≡ false = ground arith in
    let plus : eqb b b'+' ≡ false = ground arith in
    let small : ltb n 0x8000_0000_0000_0000 ≡ true = ground arith in
    rw (minus, plus) (rw (atoi, e) (rw small))

pub atoi-decimal : (n : ℕ) → n ≢ 0 → n < 0x8000_0000_0000_0000 → atoi (decimal n) ≡ some (pos n)
unfolding decimal digits_value
atoi-decimal n ne l =
    atoi-digits (decimal n) n (decimal-digits n) ne l
      (digits_value-decimal_onto (n + 1) n [] (omega arith))
