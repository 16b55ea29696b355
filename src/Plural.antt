-- ===== src/Plural.antt =====
-- pantry/i18n/plural.go: which plural form a count takes in a language. A locale is a list of
-- bytes; upper case is lowered for ASCII letters.
pub mod Forms
pub mod Locales
mod Examples
use waffle.Base.{
  ℕ, ◌+◌, ◌*◌, Bool, true, false, ◌&&◌, ◌||◌, not, Option, none, some, List, [], ◌∷◌, map, ℤ, pos,
  negsuc, ◌-ℤ◌, rem, eqb, leb, ltb, eqb_ℤ, leb_ℤ, ltb_ℤ, if◌then◌else◌,
}

pub data PluralForm : Type 0 where
  zero_form one two few many other : PluralForm

abbrev pub PluralFunc : Type 0
PluralFunc = ℤ → PluralForm

-- `lo <= n && n <= hi`
abbrev pub between : ℕ → ℕ → ℤ → Bool
between lo hi n = leb_ℤ (pos lo) n && leb_ℤ n (pos hi)

-- `n < lo || n > hi`
abbrev pub outside : ℕ → ℕ → ℤ → Bool
outside lo hi n = ltb_ℤ n (pos lo) || ltb_ℤ (pos hi) n

abbrev pub equals : ℤ → ℕ → Bool
equals n k = eqb_ℤ n (pos k)

unfoldable pub plural_english : PluralFunc
plural_english n = if equals n 1 then one else other

unfoldable pub plural_french : PluralFunc
plural_french n = if equals n 0 || equals n 1 then one else other

-- The rules of Russian for a number that is not negative.
unfoldable pub russian_of : PluralFunc
unfolding rem
russian_of n =
    let mod10 = rem n 10 in
    let mod100 = rem n 100 in
    if equals mod10 1 && not (equals mod100 11)
    then one
    else (if between 2 4 mod10 && outside 12 14 mod100
        then few
        else (if equals mod10 0 || between 5 9 mod10 || between 11 14 mod100 then many else other))

unfoldable pub plural_russian : PluralFunc
unfolding russian_of ◌-ℤ◌
plural_russian n = russian_of (if ltb_ℤ n (pos 0) then pos 0 -ℤ n else n)

unfoldable pub plural_polish : PluralFunc
unfolding rem
plural_polish n =
    let mod10 = rem n 10 in
    let mod100 = rem n 100 in
    if equals n 1
    then one
    else (if between 2 4 mod10 && outside 12 14 mod100
        then few
        else (if equals mod10 0 || equals mod10 1 || between 5 9 mod10 || between 12 14 mod100
            then many
            else other))

unfoldable pub plural_czech : PluralFunc
plural_czech n = if equals n 1 then one else (if between 2 4 n then few else other)

unfoldable pub plural_arabic : PluralFunc
unfolding rem
plural_arabic n =
    let mod100 = rem n 100 in
    if equals n 0
    then zero_form
    else (if equals n 1
        then one
        else (if equals n 2
            then two
            else (if between 3 10 mod100
                then few
                else (if between 11 99 mod100 then many else other))))

unfoldable pub plural_asian : PluralFunc
plural_asian n = other

unfoldable pub plural_romanian : PluralFunc
unfolding rem
plural_romanian n =
    if equals n 1 then one else (if equals n 0 || between 1 19 (rem n 100) then few else other)

unfoldable pub plural_lithuanian : PluralFunc
unfolding rem
plural_lithuanian n =
    let mod10 = rem n 10 in
    let mod100 = rem n 100 in
    if equals mod10 1 && outside 11 19 mod100
    then one
    else (if between 2 9 mod10 && outside 11 19 mod100 then few else other)

unfoldable pub plural_latvian : PluralFunc
unfolding rem
plural_latvian n =
    if equals n 0
    then zero_form
    else (if equals (rem n 10) 1 && not (equals (rem n 100) 11) then one else other)

unfoldable pub plural_irish : PluralFunc
plural_irish n =
    if equals n 1
    then one
    else (if equals n 2
        then two
        else (if between 3 6 n then few else (if between 7 10 n then many else other)))

unfoldable pub plural_welsh : PluralFunc
plural_welsh n =
    if equals n 0
    then zero_form
    else (if equals n 1
        then one
        else (if equals n 2
            then two
            else (if equals n 3 then few else (if equals n 6 then many else other))))

abbrev pub Text : Type 0
Text = List ℕ

abbrev pub lower : ℕ → ℕ
lower c = if leb b'A' c && leb c b'Z' then c + 32 else c

-- `strings.ToLower`
unfoldable pub to_lower : Text → Text
to_lower = map lower

-- `locale[:strings.IndexAny(locale, "-_")]`, or the whole text if neither byte stands in it.
unfoldable pub before_region : Text → Text
before_region [] = []
before_region (c ∷ cs) =
    let rest = before_region cs in if eqb c b'-' || eqb c b'_' then [] else c ∷ rest

-- A locale in lower case is cut only behind its first byte: `idx > 0`.
unfoldable pub cut_region : Text → Text
unfolding before_region
cut_region [] = []
cut_region (c ∷ cs) = if eqb c b'-' || eqb c b'_' then c ∷ cs else c ∷ before_region cs

unfoldable pub language : Text → Text
unfolding to_lower cut_region
language locale = cut_region (to_lower locale)

-- The cases of the `switch`, all of two letters.
unfoldable pub func_of_letters : ℕ → ℕ → PluralFunc
func_of_letters a b =
    let is = λ (x y : ℕ). eqb a x && eqb b y in
    if is b'f' b'r' || is b'p' b't'
    then plural_french
    else (if is b'r' b'u'
          || is b'u' b'k'
          || is b'b' b'e'
          || is b'h' b'r'
          || is b's' b'r'
          || is b'b' b's'
        then plural_russian
        else (if is b'p' b'l'
            then plural_polish
            else (if is b'c' b's' || is b's' b'k'
                then plural_czech
                else (if is b'a' b'r'
                    then plural_arabic
                    else (if is b'j' b'a'
                          || is b'z' b'h'
                          || is b'k' b'o'
                          || is b'v' b'i'
                          || is b't' b'h'
                          || is b'i' b'd'
                          || is b'm' b's'
                        then plural_asian
                        else (if is b'r' b'o'
                            then plural_romanian
                            else (if is b'l' b't'
                                then plural_lithuanian
                                else (if is b'l' b'v'
                                    then plural_latvian
                                    else (if is b'g' b'a'
                                        then plural_irish
                                        else (if is b'c' b'y'
                                            then plural_welsh
                                            else plural_english))))))))))

-- The languages that are named and the default both take the English rule.
unfoldable pub func_of_language : Text → PluralFunc
unfolding func_of_letters
func_of_language (a ∷ b ∷ []) = func_of_letters a b
func_of_language _ = plural_english

unfoldable pub get_plural_func : Text → PluralFunc
unfolding language func_of_language
get_plural_func locale = func_of_language (language locale)
