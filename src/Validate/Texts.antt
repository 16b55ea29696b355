-- ===== src/Validate/Texts.antt =====
-- pantry/validate/rules.go: rules that look at the characters of a text, or for a text in it. What
-- unicode says of a character, the characters that `range` gives, and the change of case are a
-- parameter; so are the parsers of the standard library that some rules call.
pub mod Passwords
use Prim.Native.String.{String}
use waffle.Base.{
  ℕ, Bool, true, false, not, ◌&&◌, ◌||◌, Option, none, some, List, [], ◌∷◌, ◌==◌, ltb, leb, eqb,
  length, Text, comparable_text, text_eq, has_prefix, has_suffix, contains_text, if◌then◌else◌,
  split,
}
use waffle.Urls.Spaces.{trim_space}
use waffle.Validate.Formats.{codes}
use waffle.Validate.Rules.{rule}
use waffle.Validate.Checksums.{without, all_digits}

pub record Unicode : Type 0 where
  pub runes : Text → List ℕ
  pub is_letter : ℕ → Bool
  pub is_lower : ℕ → Bool
  pub is_upper : ℕ → Bool
  pub is_digit : ℕ → Bool
  pub is_punct : ℕ → Bool
  pub is_symbol : ℕ → Bool
  pub to_lower : Text → Text
  pub to_upper : Text → Text

-- A loop that looks for a character.
unfoldable pub any : (ℕ → Bool) → List ℕ → Bool
any p [] = false
any p (r ∷ rs) = let rest = any p rs in if p r then true else rest

abbrev pub contains_rune : ℕ → List ℕ → Bool
contains_rune r rs = any (λ x. eqb x r) rs

-- `s == opt` for one of them, and a table of texts.
unfoldable pub is_one_of : List Text → Text → Bool
unfolding text_eq
is_one_of [] s = false
is_one_of (t ∷ ts) s = let rest = is_one_of ts s in if text_eq s t then true else rest

-- For a value that is a text.
unfoldable pub rule_required : Text → String
unfolding trim_space
rule_required s = elim (trim_space s) [ [] ↦ "required" | _ ∷ _ ↦ "" ]

unfoldable pub rule_contains : Text → Text → String
unfolding rule contains_text
rule_contains param s = rule "contains" (λ t. contains_text t param) s

unfoldable pub rule_excludes : Text → Text → String
unfolding rule contains_text
rule_excludes param s = rule "excludes" (λ t. not (contains_text t param)) s

unfoldable pub rule_starts_with : Text → Text → String
unfolding rule has_prefix
rule_starts_with param s = rule "startswith" (λ t. has_prefix t param) s

unfoldable pub rule_starts_not_with : Text → Text → String
unfolding rule has_prefix
rule_starts_not_with param s = rule "startsnotwith" (λ t. not (has_prefix t param)) s

unfoldable pub rule_ends_with : Text → Text → String
unfolding rule has_suffix
rule_ends_with param s = rule "endswith" (λ t. has_suffix t param) s

unfoldable pub rule_ends_not_with : Text → Text → String
unfolding rule has_suffix
rule_ends_not_with param s = rule "endsnotwith" (λ t. not (has_suffix t param)) s

unfoldable pub rule_one_of : Text → Text → String
unfolding rule is_one_of split
rule_one_of param s = rule "oneof" (is_one_of (split b' ' [] param)) s

-- A byte of a character that is no digit is no digit.
unfoldable pub rule_cvv : Text → String
unfolding rule all_digits
rule_cvv s = rule "cvv" (λ t. not (ltb (length t) 3 || ltb 4 (length t)) && all_digits t) s

-- `strings.ContainsRune(s, 0)`
abbrev pub is_path : Text → Bool
is_path s = not (any (λ b. eqb b 0) s || ltb 4096 (length s))

unfoldable pub rule_file_path : Text → String
unfolding rule any
rule_file_path s = rule "filepath" is_path s

unfoldable pub rule_dir_path : Text → String
unfolding rule any
rule_dir_path s = rule "dirpath" is_path s

abbrev pub is_code_byte : ℕ → Bool
is_code_byte b =
    (leb b'0' b && leb b b'9') || ((leb b'A' b && leb b b'Z') || (leb b'a' b && leb b b'z'))

-- The loop that finds no other byte.
unfoldable pub all_code_bytes : Text → Bool
all_code_bytes [] = true
all_code_bytes (b ∷ s) = let rest = all_code_bytes s in if not (is_code_byte b) then false else rest

unfoldable pub rule_postal_code : Text → String
unfolding rule without all_code_bytes
rule_postal_code s =
    rule "postcode"
      (λ t.
        let cleaned = without b'-' (without b' ' t) in
        not (ltb (length cleaned) 3 || ltb 10 (length cleaned)) && all_code_bytes cleaned)
      s

-- The four flags of the loop.
pub record Seen : Type 0 where
  pub upper : Bool
  pub lower : Bool
  pub digit : Bool
  pub special : Bool

abbrev pub nothing_seen : Seen
nothing_seen = record { upper = false; lower = false; digit = false; special = false }

module _ (u : Unicode) where
  abbrev pub see : ℕ → Seen → Seen
  see r seen =
      if u.is_upper r
      then record seen { upper = true }
      else (if u.is_lower r
          then record seen { lower = true }
          else (if u.is_digit r
              then record seen { digit = true }
              else (if u.is_punct r || u.is_symbol r
                  then record seen { special = true }
                  else seen)))

  unfoldable pub see_all : List ℕ → Seen → Seen
  see_all [] seen = seen
  see_all (r ∷ rs) seen = see_all rs (see r seen)

  unfoldable pub is_strong : Text → Bool
  unfolding see_all
  is_strong s =
      let seen = see_all (u.runes s) nothing_seen in
      if ltb (length s) 8
      then false
      else not (not seen.upper || not seen.lower || not seen.digit || not seen.special)

  unfoldable pub rule_strong_password : Text → String
  unfolding rule is_strong
  rule_strong_password s = rule "strongpassword" is_strong s

  unfoldable pub rule_ascii : Text → String
  unfolding rule any
  rule_ascii s = rule "ascii" (λ t. not (any (λ r. ltb 127 r) (u.runes t))) s

  unfoldable pub rule_print_ascii : Text → String
  unfolding rule any
  rule_print_ascii s = rule "printascii" (λ t. not (any (λ r. ltb r 32 || ltb 126 r) (u.runes t))) s

  unfoldable pub rule_multibyte : Text → String
  unfolding rule any
  rule_multibyte s = rule "multibyte" (λ t. any (λ r. ltb 127 r) (u.runes t)) s

  unfoldable pub rule_lowercase : Text → String
  unfolding rule any
  rule_lowercase s =
      rule "lowercase" (λ t. not (any (λ r. u.is_letter r && not (u.is_lower r)) (u.runes t))) s

  unfoldable pub rule_uppercase : Text → String
  unfolding rule any
  rule_uppercase s =
      rule "uppercase" (λ t. not (any (λ r. u.is_letter r && not (u.is_upper r)) (u.runes t))) s

  -- `strings.ContainsAny(s, chars)`
  abbrev pub contains_any : Text → Text → Bool
  contains_any s chars = any (λ r. contains_rune r (u.runes chars)) (u.runes s)

  unfoldable pub rule_contains_any : Text → Text → String
  unfolding rule any
  rule_contains_any param s = rule "containsany" (λ t. contains_any t param) s

  unfoldable pub rule_excludes_all : Text → Text → String
  unfolding rule any
  rule_excludes_all param s = rule "excludesall" (λ t. not (contains_any t param)) s

  -- The first character of the parameter, if it has one.
  unfoldable pub rule_contains_rune : Text → Text → String
  unfolding rule any
  rule_contains_rune param s =
      rule "containsrune"
        (λ t. elim (u.runes param) [ [] ↦ true | r ∷ _ ↦ contains_rune r (u.runes t) ]) s

  unfoldable pub rule_excludes_rune : Text → Text → String
  unfolding rule any
  rule_excludes_rune param s =
      rule "excludesrune"
        (λ t. elim (u.runes param) [ [] ↦ true | r ∷ _ ↦ not (contains_rune r (u.runes t)) ]) s

  abbrev pub boolean_texts : List Text
  boolean_texts =
      codes "true"
      ∷ codes "false"
      ∷ codes "1"
      ∷ codes "0"
      ∷ codes "yes"
      ∷ codes "no"
      ∷ codes "on"
      ∷ codes "off"
      ∷ []

  unfoldable pub rule_boolean : Text → String
  unfolding rule is_one_of
  rule_boolean s = rule "boolean" (is_one_of boolean_texts) (u.to_lower s)
