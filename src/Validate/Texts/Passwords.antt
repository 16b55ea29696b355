-- ===== src/Validate/Texts/Passwords.antt =====
-- pantry/validate/rules.go: which texts pass the rule `strongpassword`.
use waffle.Base.{ℕ, ◌≤◌, ◌≡◌, ◌↔◌, Bool, true, not, ◌&&◌, ◌||◌, List, [], ◌∷◌, length, Text, arith}
use waffle.Validate.Texts.{Unicode, any, Seen, see, see_all, nothing_seen, is_strong}

module _ (u : Unicode) where
  -- The cases of the loop's switch: of a character that several would take, the first one does.
  abbrev counts_lower : ℕ → Bool
  counts_lower r = not (u.is_upper r) && u.is_lower r

  abbrev counts_digit : ℕ → Bool
  counts_digit r = not (u.is_upper r || u.is_lower r) && u.is_digit r

  abbrev counts_special : ℕ → Bool
  counts_special r =
      not (u.is_upper r || (u.is_lower r || u.is_digit r)) && (u.is_punct r || u.is_symbol r)

  -- At least eight bytes, and a character of each of the four kinds.
  abbrev pub IsStrong : Text → Type 0
  IsStrong s =
      (8 ≤ length s)
      × (any u.is_upper (u.runes s) ≡ true)
      × (any counts_lower (u.runes s) ≡ true)
      × (any counts_digit (u.runes s) ≡ true)
      × (any counts_special (u.runes s) ≡ true)

  see_all-upper :
      (rs : List ℕ) (seen : Seen) → (see_all u rs seen).upper ≡ (seen.upper || any u.is_upper rs)
  unfolding see_all any
  see_all-upper [] seen = ground arith
  see_all-upper (r ∷ rs) seen = ground (arith, see_all-upper rs (see u r seen))

  see_all-lower :
      (rs : List ℕ) (seen : Seen) → (see_all u rs seen).lower ≡ (seen.lower || any counts_lower rs)
  unfolding see_all any
  see_all-lower [] seen = ground arith
  see_all-lower (r ∷ rs) seen = ground (arith, see_all-lower rs (see u r seen))

  see_all-digit :
      (rs : List ℕ) (seen : Seen) → (see_all u rs seen).digit ≡ (seen.digit || any counts_digit rs)
  unfolding see_all any
  see_all-digit [] seen = ground arith
  see_all-digit (r ∷ rs) seen = ground (arith, see_all-digit rs (see u r seen))

  see_all-special :
      (rs : List ℕ) (seen : Seen)
      → (see_all u rs seen).special ≡ (seen.special || any counts_special rs)
  unfolding see_all any
  see_all-special [] seen = ground arith
  see_all-special (r ∷ rs) seen = ground (arith, see_all-special rs (see u r seen))

  -- A text is taken for a strong password just if it has eight bytes and a character of each kind:
  -- upper case, lower case, digit, and punctuation or symbol.
  pub is_strong_lem : (s : Text) → (is_strong u s ≡ true) ↔ IsStrong s
  unfolding is_strong
  is_strong_lem s =
      let rs = u.runes s in
      let a = see_all-upper rs nothing_seen in
      let b = see_all-lower rs nothing_seen in
      let c = see_all-digit rs nothing_seen in
      let d = see_all-special rs nothing_seen in (λ h. ground arith, λ h. ground arith)
