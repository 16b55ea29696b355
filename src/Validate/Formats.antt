-- ===== src/Validate/Formats.antt =====
-- pantry/validate/validate.go: the compiled patterns that the rules of rules.go use.
use Prim.Native.Char.{code}
use Prim.Native.String.{String}
use waffle.Base.{ℕ, zero, suc, List, [], ◌∷◌, Text}
use waffle.Validate.Patterns.{Class, Pattern, nothing, blank, byte, followed, either, repeated}

-- The bytes of a text of ASCII characters.
abbrev pub codes : String → Text
codes String.[] = []
codes (String.◌∷◌ c s) = code c ∷ codes s

abbrev pub one : ℕ → Pattern
one b = byte ((b, b) ∷ [])

abbrev pub literal : Text → Pattern
literal [] = blank
literal (b ∷ s) = followed (one b) (literal s)

-- `p{n}`, `p{0,n}`, `p?`, `p+` and `p{n,}`.
abbrev pub times : ℕ → Pattern → Pattern
times zero p = blank
times (suc n) p = followed p (times n p)

abbrev pub up_to : ℕ → Pattern → Pattern
up_to zero p = blank
up_to (suc n) p = either blank (followed p (up_to n p))

abbrev pub optional : Pattern → Pattern
optional p = either blank p

abbrev pub repeated_once : Pattern → Pattern
repeated_once p = followed p (repeated p)

abbrev pub at_least : ℕ → Pattern → Pattern
at_least n p = followed (times n p) (repeated p)

-- One pattern after the other.
abbrev pub all_of : List Pattern → Pattern
all_of [] = blank
all_of (p ∷ ps) = followed p (all_of ps)

abbrev pub any_of : List Pattern → Pattern
any_of [] = nothing
any_of (p ∷ ps) = either p (any_of ps)

abbrev pub digits : Class
digits = (b'0', b'9') ∷ []

abbrev pub letters : Class
letters = (b'a', b'z') ∷ (b'A', b'Z') ∷ []

abbrev pub letters_digits : Class
letters_digits = (b'a', b'z') ∷ (b'A', b'Z') ∷ (b'0', b'9') ∷ []

abbrev pub hex_digits : Class
hex_digits = (b'0', b'9') ∷ (b'a', b'f') ∷ (b'A', b'F') ∷ []

-- `\s`
abbrev pub spaces : Pattern
spaces = repeated (byte ((9, 10) ∷ (12, 13) ∷ (b' ', b' ') ∷ []))

abbrev pub hex : ℕ → Pattern
hex n = times n (byte hex_digits)

abbrev pub email_regex : Pattern
email_regex = all_of (
    repeated_once (
      byte
        ((b'.', b'.') ∷ (b'_', b'_') ∷ (b'%', b'%') ∷ (b'+', b'+') ∷ (b'-', b'-') ∷ letters_digits))
    ∷ one b'@'
    ∷ repeated_once (byte ((b'.', b'.') ∷ (b'-', b'-') ∷ letters_digits))
    ∷ one b'.'
    ∷ at_least 2 (byte letters)
    ∷ [])

abbrev pub uuid_of : Pattern → Pattern → Pattern
uuid_of third fourth =
    all_of
      (hex 8 ∷ one b'-' ∷ hex 4 ∷ one b'-' ∷ third ∷ one b'-' ∷ fourth ∷ one b'-' ∷ hex 12 ∷ [])

abbrev pub variant : Pattern
variant = followed (byte ((b'8', b'9') ∷ (b'a', b'b') ∷ (b'A', b'B') ∷ [])) (hex 3)

abbrev pub uuid_regex : Pattern
uuid_regex = uuid_of (hex 4) (hex 4)

abbrev pub uuid3_regex : Pattern
uuid3_regex = uuid_of (followed (one b'3') (hex 3)) (hex 4)

abbrev pub uuid4_regex : Pattern
uuid4_regex = uuid_of (followed (one b'4') (hex 3)) variant

abbrev pub uuid5_regex : Pattern
uuid5_regex = uuid_of (followed (one b'5') (hex 3)) variant

abbrev pub ulid_regex : Pattern
ulid_regex = times 26 (
    byte (
      (b'0', b'9') ∷ (b'A', b'H') ∷ (b'J', b'K') ∷ (b'M', b'N') ∷ (b'P', b'T') ∷ (b'V', b'Z') ∷ []))

abbrev pub alpha_regex : Pattern
alpha_regex = repeated_once (byte letters)

abbrev pub alpha_num_regex : Pattern
alpha_num_regex = repeated_once (byte letters_digits)

abbrev pub alpha_num_space_regex : Pattern
alpha_num_space_regex = repeated_once (byte ((b' ', b' ') ∷ letters_digits))

abbrev pub numeric_regex : Pattern
numeric_regex =
    followed (optional (byte ((b'-', b'-') ∷ (b'+', b'+') ∷ []))) (repeated_once (byte digits))

abbrev pub hex_regex : Pattern
hex_regex = repeated_once (byte hex_digits)

abbrev pub hex_color_regex : Pattern
hex_color_regex = followed (one b'#') (any_of (hex 3 ∷ hex 6 ∷ hex 8 ∷ []))

-- `\s*(\d{1,3})\s*`, and the same before a per cent sign.
abbrev pub channel : Pattern
channel = all_of (spaces ∷ byte digits ∷ up_to 2 (byte digits) ∷ spaces ∷ [])

abbrev pub percentage : Pattern
percentage = all_of (spaces ∷ byte digits ∷ up_to 2 (byte digits) ∷ one b'%' ∷ spaces ∷ [])

-- `\s*(0|1|0?\.\d+)\s*`
abbrev pub opacity : Pattern
opacity = all_of (
    spaces
    ∷ any_of (
        one b'0'
        ∷ one b'1'
        ∷ all_of (optional (one b'0') ∷ one b'.' ∷ repeated_once (byte digits) ∷ [])
        ∷ [])
    ∷ spaces
    ∷ [])

abbrev pub rgb_regex : Pattern
rgb_regex =
    all_of
      (literal (codes "rgb(") ∷ channel ∷ one b',' ∷ channel ∷ one b',' ∷ channel ∷ one b')' ∷ [])

abbrev pub rgba_regex : Pattern
rgba_regex = all_of (
    literal (codes "rgba(")
    ∷ channel
    ∷ one b','
    ∷ channel
    ∷ one b','
    ∷ channel
    ∷ one b','
    ∷ opacity
    ∷ one b')'
    ∷ [])

abbrev pub hsl_regex : Pattern
hsl_regex = all_of (
    literal (codes "hsl(")
    ∷ channel
    ∷ one b','
    ∷ percentage
    ∷ one b','
    ∷ percentage
    ∷ one b')'
    ∷ [])

abbrev pub hsla_regex : Pattern
hsla_regex = all_of (
    literal (codes "hsla(")
    ∷ channel
    ∷ one b','
    ∷ percentage
    ∷ one b','
    ∷ percentage
    ∷ one b','
    ∷ opacity
    ∷ one b')'
    ∷ [])

abbrev pub padding : Pattern
padding = up_to 2 (one b'=')

abbrev pub base64_regex : Pattern
base64_regex = followed (repeated (byte ((b'+', b'+') ∷ (b'/', b'/') ∷ letters_digits))) padding

abbrev pub url_bytes : Class
url_bytes = (b'_', b'_') ∷ (b'-', b'-') ∷ letters_digits

abbrev pub base64_url_regex : Pattern
base64_url_regex = followed (repeated (byte url_bytes)) padding

abbrev pub isbn10_regex : Pattern
isbn10_regex = either (followed (times 9 (byte digits)) (one b'X')) (times 10 (byte digits))

abbrev pub isbn13_regex : Pattern
isbn13_regex = times 13 (byte digits)

abbrev pub issn_regex : Pattern
issn_regex =
    all_of
      (times 4 (byte digits) ∷ one b'-' ∷ times 3 (byte digits) ∷ byte ((b'X', b'X') ∷ digits) ∷ [])

abbrev pub label : Pattern
label =
    followed (byte letters_digits)
      (optional (followed (up_to 61 (byte ((b'-', b'-') ∷ letters_digits))) (byte letters_digits)))

abbrev pub hostname_regex : Pattern
hostname_regex = label

abbrev pub fqdn_regex : Pattern
fqdn_regex = followed (repeated_once (followed label (one b'.'))) (at_least 2 (byte letters))

abbrev pub e164_regex : Pattern
e164_regex =
    all_of (one b'+' ∷ byte ((b'1', b'9') ∷ []) ∷ byte digits ∷ up_to 13 (byte digits) ∷ [])

-- `0|[1-9]\d*`
abbrev pub version_number : Pattern
version_number = either (one b'0') (followed (byte ((b'1', b'9') ∷ [])) (repeated (byte digits)))

abbrev pub dotted : Pattern → Pattern
dotted p = followed p (repeated (followed (one b'.') p))

abbrev pub pre_release : Pattern
pre_release = either version_number (
    all_of (
      repeated (byte digits)
      ∷ byte ((b'-', b'-') ∷ letters)
      ∷ repeated (byte ((b'-', b'-') ∷ letters_digits))
      ∷ []))

abbrev pub semver_regex : Pattern
semver_regex = all_of (
    optional (one b'v')
    ∷ version_number
    ∷ one b'.'
    ∷ version_number
    ∷ one b'.'
    ∷ version_number
    ∷ optional (followed (one b'-') (dotted pre_release))
    ∷ optional (followed (one b'+') (dotted (repeated_once (byte ((b'-', b'-') ∷ letters_digits)))))
    ∷ [])

abbrev pub slug_word : Pattern
slug_word = repeated_once (byte ((b'a', b'z') ∷ (b'0', b'9') ∷ []))

abbrev pub slug_regex : Pattern
slug_regex = followed slug_word (repeated (followed (one b'-') slug_word))

abbrev pub jwt_regex : Pattern
jwt_regex = all_of (
    repeated_once (byte url_bytes)
    ∷ one b'.'
    ∷ repeated_once (byte url_bytes)
    ∷ one b'.'
    ∷ repeated_once (byte url_bytes)
    ∷ [])
