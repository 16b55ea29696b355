-- ===== src/Urls/Spaces.antt =====
-- `strings.TrimSpace` on bytes: Unicode's white space, in UTF-8 of one, two or three bytes.
use waffle.Base.{ℕ, Bool, ◌&&◌, ◌||◌, [], ◌∷◌, eqb, leb, if◌then◌else◌, Text, reverse_onto}

-- Tab to carriage return, and space.
abbrev pub is_space_1 : ℕ → Bool
is_space_1 b = (leb 9 b && leb b 13) || eqb b 32

-- U+0085 and U+00A0
abbrev pub is_space_2 : ℕ → ℕ → Bool
is_space_2 b c = eqb b 0xC2 && (eqb c 0x85 || eqb c 0xA0)

-- U+1680, U+2000 to U+200A, U+2028, U+2029, U+202F, U+205F and U+3000
abbrev pub is_space_3 : ℕ → ℕ → ℕ → Bool
is_space_3 b c d =
    (eqb b 0xE1 && eqb c 0x9A && eqb d 0x80)
    || (eqb b 0xE2 && eqb c 0x80 && leb 0x80 d && leb d 0x8A)
    || (eqb b 0xE2 && eqb c 0x80 && (eqb d 0xA8 || eqb d 0xA9 || eqb d 0xAF))
    || (eqb b 0xE2 && eqb c 0x81 && eqb d 0x9F)
    || (eqb b 0xE3 && eqb c 0x80 && eqb d 0x80)

-- The text without the characters at its start that the tests find.
unfoldable pub trim_start : (ℕ → ℕ → Bool) → (ℕ → ℕ → ℕ → Bool) → Text → Text
trim_start two three [] = []
trim_start two three (b ∷ []) = if is_space_1 b then [] else b ∷ []
trim_start two three (b ∷ c ∷ []) =
    let rest = trim_start two three (c ∷ []) in
    if is_space_1 b then rest else (if two b c then [] else b ∷ c ∷ [])
trim_start two three (b ∷ c ∷ d ∷ bs) =
    let rest_1 = trim_start two three (c ∷ d ∷ bs) in
    let rest_2 = trim_start two three (d ∷ bs) in
    let rest_3 = trim_start two three bs in
    if is_space_1 b
    then rest_1
    else (if two b c then rest_2 else (if three b c d then rest_3 else b ∷ c ∷ d ∷ bs))

unfoldable pub trim_space : Text → Text
unfolding trim_start reverse_onto
trim_space t =
    let left = trim_start is_space_2 is_space_3 t in
    let right =
      trim_start (λ b c. is_space_2 c b) (λ b c d. is_space_3 d c b) (reverse_onto left []) in
    reverse_onto right []
