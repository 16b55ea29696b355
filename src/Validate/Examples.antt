-- ===== src/Validate/Examples.antt =====
-- pantry/validate: rules on small texts.
use waffle.Base.{◌≡◌, ◌↔◌, refl, true, false, [], ◌∷◌, ◌++◌, reverse_onto, arith}
use waffle.Validate.Patterns.{matches}
use waffle.Validate.Formats.{codes, rgb_regex, semver_regex, hex_color_regex, fqdn_regex}
use waffle.Validate.Checksums.{is_isbn10, is_isbn13, isbn10_sum, luhn_valid, all_digits}
use waffle.Validate.Checksums.Isbn.{is_isbn10-single}
use waffle.Validate.Checksums.Isbn13.{IsIsbn13, is_isbn13_lem}
use waffle.Validate.Checksums.Luhn.{luhn_valid-single}
use waffle.Validate.Rules.{rule_hostname, rule_base64}
use waffle.Validate.Rules.Base64.{IsBase64, rule_base64_lem}

colors_match : matches rgb_regex (codes "rgb(1, 20,255)") ≡ true
unfolding matches
colors_match = refl

short_color : matches hex_color_regex (codes "#12345") ≡ false
unfolding matches
short_color = refl

version_matches : matches semver_regex (codes "1.20.3-rc.1+b7") ≡ true
unfolding matches
version_matches = refl

version_zero : matches semver_regex (codes "1.02.3") ≡ false
unfolding matches
version_zero = refl

domain_matches : matches fqdn_regex (codes "a.io") ≡ true
unfolding matches
domain_matches = refl

book : is_isbn10 (codes "030640615" ++ b'2' ∷ []) ≡ true
unfolding matches isbn10_sum
book = refl

is_isbn10-single_example : is_isbn10 (codes "030640615" ++ b'3' ∷ []) ≡ false
is_isbn10-single_example =
    is_isbn10-single (codes "030640615") [] b'2' b'3' book (λ e. absurd (omega arith))

is_isbn13_lem_example :
    (is_isbn13 (codes "9780306406157") ≡ true) ↔ IsIsbn13 (codes "9780306406157")
is_isbn13_lem_example = is_isbn13_lem (codes "9780306406157")

card_digits : all_digits (codes "411111111111111" ++ b'1' ∷ []) ≡ true
unfolding all_digits
card_digits = refl

wrong_digits : all_digits (codes "411111111111111" ++ b'7' ∷ []) ≡ true
unfolding all_digits
wrong_digits = refl

card : luhn_valid (codes "411111111111111" ++ b'1' ∷ []) ≡ true
unfolding luhn_valid reverse_onto
card = refl

luhn_valid-single_example : luhn_valid (codes "411111111111111" ++ b'7' ∷ []) ≡ false
luhn_valid-single_example =
    luhn_valid-single (codes "411111111111111") [] b'1' b'7' card_digits wrong_digits card
      (λ e. absurd (omega arith))

host : rule_hostname (codes "web-1") ≡ ""
unfolding rule_hostname matches
host = refl

rule_base64_lem_example : (rule_base64 (b'Y' ∷ codes "WI=") ≡ "") ↔ IsBase64 (b'Y' ∷ codes "WI=")
rule_base64_lem_example = rule_base64_lem b'Y' (codes "WI=")
