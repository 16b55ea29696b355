-- ===== src/Validate/Codes.antt =====
-- pantry/validate/rules.go: the rules on the codes of countries and languages. The case of a text
-- changes as the standard library does it, which is the parameter of the rules.
use Prim.Native.String.{String}
use waffle.Base.{Bool, false, List, [], ◌∷◌, map, ltb, length, Text, if◌then◌else◌, split}
use waffle.Validate.Formats.{codes}
use waffle.Validate.Rules.{rule}
use waffle.Validate.Texts.{Unicode, is_one_of}

abbrev country_names : List String
country_names =
    "AD" ∷ "AE" ∷ "AF" ∷ "AG" ∷ "AI" ∷ "AL" ∷ "AM" ∷ "AO" ∷ "AQ" ∷ "AR" ∷ "AS" ∷ "AT" ∷ "AU" ∷ "AW"
    ∷ "AX" ∷ "AZ" ∷ "BA" ∷ "BB" ∷ "BD" ∷ "BE" ∷ "BF" ∷ "BG" ∷ "BH" ∷ "BI" ∷ "BJ" ∷ "BL" ∷ "BM"
    ∷ "BN" ∷ "BO" ∷ "BQ" ∷ "BR" ∷ "BS" ∷ "BT" ∷ "BV" ∷ "BW" ∷ "BY" ∷ "BZ" ∷ "CA" ∷ "CC" ∷ "CD"
    ∷ "CF" ∷ "CG" ∷ "CH" ∷ "CI" ∷ "CK" ∷ "CL" ∷ "CM" ∷ "CN" ∷ "CO" ∷ "CR" ∷ "CU" ∷ "CV" ∷ "CW"
    ∷ "CX" ∷ "CY" ∷ "CZ" ∷ "DE" ∷ "DJ" ∷ "DK" ∷ "DM" ∷ "DO" ∷ "DZ" ∷ "EC" ∷ "EE" ∷ "EG" ∷ "EH"
    ∷ "ER" ∷ "ES" ∷ "ET" ∷ "FI" ∷ "FJ" ∷ "FK" ∷ "FM" ∷ "FO" ∷ "FR" ∷ "GA" ∷ "GB" ∷ "GD" ∷ "GE"
    ∷ "GF" ∷ "GG" ∷ "GH" ∷ "GI" ∷ "GL" ∷ "GM" ∷ "GN" ∷ "GP" ∷ "GQ" ∷ "GR" ∷ "GS" ∷ "GT" ∷ "GU"
    ∷ "GW" ∷ "GY" ∷ "HK" ∷ "HM" ∷ "HN" ∷ "HR" ∷ "HT" ∷ "HU" ∷ "ID" ∷ "IE" ∷ "IL" ∷ "IM" ∷ "IN"
    ∷ "IO" ∷ "IQ" ∷ "IR" ∷ "IS" ∷ "IT" ∷ "JE" ∷ "JM" ∷ "JO" ∷ "JP" ∷ "KE" ∷ "KG" ∷ "KH" ∷ "KI"
    ∷ "KM" ∷ "KN" ∷ "KP" ∷ "KR" ∷ "KW" ∷ "KY" ∷ "KZ" ∷ "LA" ∷ "LB" ∷ "LC" ∷ "LI" ∷ "LK" ∷ "LR"
    ∷ "LS" ∷ "LT" ∷ "LU" ∷ "LV" ∷ "LY" ∷ "MA" ∷ "MC" ∷ "MD" ∷ "ME" ∷ "MF" ∷ "MG" ∷ "MH" ∷ "MK"
    ∷ "ML" ∷ "MM" ∷ "MN" ∷ "MO" ∷ "MP" ∷ "MQ" ∷ "MR" ∷ "MS" ∷ "MT" ∷ "MU" ∷ "MV" ∷ "MW" ∷ "MX"
    ∷ "MY" ∷ "MZ" ∷ "NA" ∷ "NC" ∷ "NE" ∷ "NF" ∷ "NG" ∷ "NI" ∷ "NL" ∷ "NO" ∷ "NP" ∷ "NR" ∷ "NU"
    ∷ "NZ" ∷ "OM" ∷ "PA" ∷ "PE" ∷ "PF" ∷ "PG" ∷ "PH" ∷ "PK" ∷ "PL" ∷ "PM" ∷ "PN" ∷ "PR" ∷ "PS"
    ∷ "PT" ∷ "PW" ∷ "PY" ∷ "QA" ∷ "RE" ∷ "RO" ∷ "RS" ∷ "RU" ∷ "RW" ∷ "SA" ∷ "SB" ∷ "SC" ∷ "SD"
    ∷ "SE" ∷ "SG" ∷ "SH" ∷ "SI" ∷ "SJ" ∷ "SK" ∷ "SL" ∷ "SM" ∷ "SN" ∷ "SO" ∷ "SR" ∷ "SS" ∷ "ST"
    ∷ "SV" ∷ "SX" ∷ "SY" ∷ "SZ" ∷ "TC" ∷ "TD" ∷ "TF" ∷ "TG" ∷ "TH" ∷ "TJ" ∷ "TK" ∷ "TL" ∷ "TM"
    ∷ "TN" ∷ "TO" ∷ "TR" ∷ "TT" ∷ "TV" ∷ "TW" ∷ "TZ" ∷ "UA" ∷ "UG" ∷ "UM" ∷ "US" ∷ "UY" ∷ "UZ"
    ∷ "VA" ∷ "VC" ∷ "VE" ∷ "VG" ∷ "VI" ∷ "VN" ∷ "VU" ∷ "WF" ∷ "WS" ∷ "YE" ∷ "YT" ∷ "ZA" ∷ "ZM"
    ∷ "ZW" ∷ []

abbrev language_names : List String
language_names =
    "aa" ∷ "ab" ∷ "ae" ∷ "af" ∷ "ak" ∷ "am" ∷ "an" ∷ "ar" ∷ "as" ∷ "av" ∷ "ay" ∷ "az" ∷ "ba" ∷ "be"
    ∷ "bg" ∷ "bh" ∷ "bi" ∷ "bm" ∷ "bn" ∷ "bo" ∷ "br" ∷ "bs" ∷ "ca" ∷ "ce" ∷ "ch" ∷ "co" ∷ "cr"
    ∷ "cs" ∷ "cu" ∷ "cv" ∷ "cy" ∷ "da" ∷ "de" ∷ "dv" ∷ "dz" ∷ "ee" ∷ "el" ∷ "en" ∷ "eo" ∷ "es"
    ∷ "et" ∷ "eu" ∷ "fa" ∷ "ff" ∷ "fi" ∷ "fj" ∷ "fo" ∷ "fr" ∷ "fy" ∷ "ga" ∷ "gd" ∷ "gl" ∷ "gn"
    ∷ "gu" ∷ "gv" ∷ "ha" ∷ "he" ∷ "hi" ∷ "ho" ∷ "hr" ∷ "ht" ∷ "hu" ∷ "hy" ∷ "hz" ∷ "ia" ∷ "id"
    ∷ "ie" ∷ "ig" ∷ "ii" ∷ "ik" ∷ "io" ∷ "is" ∷ "it" ∷ "iu" ∷ "ja" ∷ "jv" ∷ "ka" ∷ "kg" ∷ "ki"
    ∷ "kj" ∷ "kk" ∷ "kl" ∷ "km" ∷ "kn" ∷ "ko" ∷ "kr" ∷ "ks" ∷ "ku" ∷ "kv" ∷ "kw" ∷ "ky" ∷ "la"
    ∷ "lb" ∷ "lg" ∷ "li" ∷ "ln" ∷ "lo" ∷ "lt" ∷ "lu" ∷ "lv" ∷ "mg" ∷ "mh" ∷ "mi" ∷ "mk" ∷ "ml"
    ∷ "mn" ∷ "mr" ∷ "ms" ∷ "mt" ∷ "my" ∷ "na" ∷ "nb" ∷ "nd" ∷ "ne" ∷ "ng" ∷ "nl" ∷ "nn" ∷ "no"
    ∷ "nr" ∷ "nv" ∷ "ny" ∷ "oc" ∷ "oj" ∷ "om" ∷ "or" ∷ "os" ∷ "pa" ∷ "pi" ∷ "pl" ∷ "ps" ∷ "pt"
    ∷ "qu" ∷ "rm" ∷ "rn" ∷ "ro" ∷ "ru" ∷ "rw" ∷ "sa" ∷ "sc" ∷ "sd" ∷ "se" ∷ "sg" ∷ "si" ∷ "sk"
    ∷ "sl" ∷ "sm" ∷ "sn" ∷ "so" ∷ "sq" ∷ "sr" ∷ "ss" ∷ "st" ∷ "su" ∷ "sv" ∷ "sw" ∷ "ta" ∷ "te"
    ∷ "tg" ∷ "th" ∷ "ti" ∷ "tk" ∷ "tl" ∷ "tn" ∷ "to" ∷ "tr" ∷ "ts" ∷ "tt" ∷ "tw" ∷ "ty" ∷ "ug"
    ∷ "uk" ∷ "ur" ∷ "uz" ∷ "ve" ∷ "vi" ∷ "vo" ∷ "wa" ∷ "wo" ∷ "xh" ∷ "yi" ∷ "yo" ∷ "za" ∷ "zh"
    ∷ "zu" ∷ []

abbrev pub country_codes : List Text
country_codes = map codes country_names

abbrev pub language_codes : List Text
language_codes = map codes language_names

-- The part of a list that Go's `parts[0]` reads; `split` gives at least one.
abbrev pub first_part : List Text → Text
first_part [] = []
first_part (p ∷ ps) = p

module _ (u : Unicode) where
  unfoldable pub rule_country_code : Text → String
  unfolding rule is_one_of
  rule_country_code s = rule "countrycode" (is_one_of country_codes) (u.to_upper s)

  unfoldable pub rule_language_code : Text → String
  unfolding rule is_one_of
  rule_language_code s = rule "languagecode" (is_one_of language_codes) (u.to_lower s)

  unfoldable pub is_bcp47 : Text → Bool
  unfolding is_one_of split
  is_bcp47 s =
      let parts = split b'-' [] s in
      if ltb 4 (length parts)
      then false
      else is_one_of language_codes (u.to_lower (first_part parts))

  unfoldable pub rule_bcp47 : Text → String
  unfolding rule is_bcp47
  rule_bcp47 s = rule "bcp47" is_bcp47 s
