-- ===== src/Plural/Locales.antt =====
-- GetPluralFunc looks at the language of a locale alone: neither case nor region matters.
use waffle.Base.{ℕ, ◌≡◌, ◌≢◌, refl, ap, ◌⊎◌, [], ◌∷◌, ◌++◌, All, arith}
use mathlib.Core.Path.{ap₂}
use waffle.Plural.{
  Text, lower, to_lower, before_region, cut_region, language, func_of_language, get_plural_func,
}

lower-lower : (c : ℕ) → lower (lower c) ≡ lower c
lower-lower c = ground arith

to_lower-to_lower : (t : Text) → to_lower (to_lower t) ≡ to_lower t
unfolding to_lower
to_lower-to_lower [] = refl
to_lower-to_lower (c ∷ cs) = ap₂ (λ x xs. x ∷ xs) (lower-lower c) (to_lower-to_lower cs)

abbrev pub IsLetter : ℕ → Type 0
IsLetter c = (c ≢ b'-') × (c ≢ b'_')

before_region-append :
    (lang region : Text) (sep : ℕ)
    → All IsLetter lang
    → (sep ≡ b'-') ⊎ (sep ≡ b'_')
    → before_region (to_lower (lang ++ sep ∷ region)) ≡ before_region (to_lower lang)
unfolding before_region to_lower
before_region-append [] region sep h s = ground arith
before_region-append (c ∷ cs) region sep h s =
    ground (arith, before_region-append cs region sep h.1 s)

language-append :
    (c : ℕ) (lang region : Text) (sep : ℕ)
    → All IsLetter (c ∷ lang)
    → (sep ≡ b'-') ⊎ (sep ≡ b'_')
    → language ((c ∷ lang) ++ sep ∷ region) ≡ language (c ∷ lang)
unfolding language
language-append c lang region sep h s = ground (arith, before_region-append lang region sep h.1 s)

-- A locale without separator, not empty, has the rule that it has with any region behind it, set
-- off by `-` or `_`; and the case of its letters does not matter.
pub get_plural_func-append :
    (c : ℕ) (lang region : Text) (sep : ℕ)
    → All IsLetter (c ∷ lang)
    → (sep ≡ b'-') ⊎ (sep ≡ b'_')
    → (get_plural_func ((c ∷ lang) ++ sep ∷ region) ≡ get_plural_func (c ∷ lang))
      × (get_plural_func (to_lower (c ∷ lang)) ≡ get_plural_func (c ∷ lang))
unfolding get_plural_func language
get_plural_func-append c lang region sep h s = (
  ap func_of_language (language-append c lang region sep h s),
  ap (λ t. func_of_language (cut_region t)) (to_lower-to_lower (c ∷ lang)),
)
