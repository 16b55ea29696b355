-- ===== src/Plural/Examples.antt =====
-- Counts and locales.
use waffle.Base.{◌≡◌, refl, [], ◌∷◌, pos, negsuc, ◌-ℤ◌}
use waffle.Plural.{
  one, few, many, other, plural_russian, plural_polish, plural_french, get_plural_func,
}

program : Unit {0}
unfolding plural_russian plural_polish plural_french get_plural_func ◌-ℤ◌
program = tt

twenty_two : plural_russian (pos 22) ≡ few
unfolding program
twenty_two = refl

minus_eleven : plural_russian (negsuc 10) ≡ many
unfolding program
minus_eleven = refl

minus_five : plural_polish (negsuc 4) ≡ other
unfolding program
minus_five = refl

brazilian : get_plural_func (b'p' ∷ b't' ∷ b'-' ∷ b'B' ∷ b'R' ∷ []) (pos 0) ≡ one
unfolding program
brazilian = refl
