-- ===== src/Validate/Rules.antt =====
-- pantry/validate/rules.go: the rules that match a text, the one that toString gives of a value.
-- A rule gives its own name for a text that it refuses, and "" for one that it accepts.
pub mod Hostnames
pub mod Base64
use Prim.Native.String.{String}
use waffle.Base.{◌%◌, Bool, ◌&&◌, ◌||◌, not, List, [], ◌∷◌, ltb, eqb, length, Text, if◌then◌else◌}
use waffle.Validate.Patterns.{Pattern, matches}
use waffle.Validate.Formats.{
  email_regex, uuid_regex, uuid3_regex, uuid4_regex, uuid5_regex, ulid_regex, alpha_regex,
  alpha_num_regex, alpha_num_space_regex, numeric_regex, hex_regex, hex_color_regex, rgb_regex,
  rgba_regex, hsl_regex, hsla_regex, jwt_regex, base64_url_regex, issn_regex, fqdn_regex,
  e164_regex, semver_regex, slug_regex, hostname_regex, base64_regex,
}

-- The frame of the rules: the empty text passes.
unfoldable pub rule : String → (Text → Bool) → Text → String
rule name accepts [] = ""
rule name accepts (b ∷ s) = if accepts (b ∷ s) then "" else name

unfoldable pub rule_email : Text → String
unfolding rule
rule_email s = rule "email" (matches email_regex) s

unfoldable pub rule_uuid : Text → String
unfolding rule
rule_uuid s = rule "uuid" (matches uuid_regex) s

unfoldable pub rule_uuid3 : Text → String
unfolding rule
rule_uuid3 s = rule "uuid3" (matches uuid3_regex) s

unfoldable pub rule_uuid4 : Text → String
unfolding rule
rule_uuid4 s = rule "uuid4" (matches uuid4_regex) s

unfoldable pub rule_uuid5 : Text → String
unfolding rule
rule_uuid5 s = rule "uuid5" (matches uuid5_regex) s

unfoldable pub rule_ulid : Text → String
unfolding rule
rule_ulid s = rule "ulid" (matches ulid_regex) s

unfoldable pub rule_alpha : Text → String
unfolding rule
rule_alpha s = rule "alpha" (matches alpha_regex) s

unfoldable pub rule_alpha_num : Text → String
unfolding rule
rule_alpha_num s = rule "alphanum" (matches alpha_num_regex) s

unfoldable pub rule_alpha_num_space : Text → String
unfolding rule
rule_alpha_num_space s = rule "alphanumspace" (matches alpha_num_space_regex) s

unfoldable pub rule_numeric : Text → String
unfolding rule
rule_numeric s = rule "numeric" (matches numeric_regex) s

unfoldable pub rule_hexadecimal : Text → String
unfolding rule
rule_hexadecimal s = rule "hexadecimal" (matches hex_regex) s

unfoldable pub rule_hex_color : Text → String
unfolding rule
rule_hex_color s = rule "hexcolor" (matches hex_color_regex) s

unfoldable pub rule_rgb : Text → String
unfolding rule
rule_rgb s = rule "rgb" (matches rgb_regex) s

unfoldable pub rule_rgba : Text → String
unfolding rule
rule_rgba s = rule "rgba" (matches rgba_regex) s

unfoldable pub rule_hsl : Text → String
unfolding rule
rule_hsl s = rule "hsl" (matches hsl_regex) s

unfoldable pub rule_hsla : Text → String
unfolding rule
rule_hsla s = rule "hsla" (matches hsla_regex) s

unfoldable pub rule_jwt : Text → String
unfolding rule
rule_jwt s = rule "jwt" (matches jwt_regex) s

unfoldable pub rule_base64_url : Text → String
unfolding rule
rule_base64_url s = rule "base64url" (matches base64_url_regex) s

unfoldable pub rule_issn : Text → String
unfolding rule
rule_issn s = rule "issn" (matches issn_regex) s

unfoldable pub rule_fqdn : Text → String
unfolding rule
rule_fqdn s = rule "fqdn" (matches fqdn_regex) s

unfoldable pub rule_e164 : Text → String
unfolding rule
rule_e164 s = rule "e164" (matches e164_regex) s

unfoldable pub rule_semver : Text → String
unfolding rule
rule_semver s = rule "semver" (matches semver_regex) s

unfoldable pub rule_slug : Text → String
unfolding rule
rule_slug s = rule "slug" (matches slug_regex) s

unfoldable pub rule_base64 : Text → String
unfolding rule
rule_base64 s = rule "base64" (λ t. eqb (length t % 4) 0 && matches base64_regex t) s

unfoldable pub rule_hostname : Text → String
unfolding rule
rule_hostname s = rule "hostname" (λ t. not (ltb 253 (length t)) && matches hostname_regex t) s
