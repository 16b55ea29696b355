-- ===== src/Validate/Parsers.antt =====
-- pantry/validate/rules.go: the rules that ask a parser of the standard library. What the parsers
-- accept is a parameter: an address by whether it has a form of four bytes, a URL by its scheme
-- and its host, and the others by whether they return no error.
use Prim.Native.String.{String}
use waffle.Base.{
  Bool, true, false, not, ◌||◌, Option, none, some, List, [], ◌∷◌, Text, text_eq, if◌then◌else◌,
}
use waffle.Validate.Formats.{codes}
use waffle.Validate.Rules.{rule}

pub record Parsers : Type 0 where
  pub parse_url : Text → Option (Text × Text)
  pub parse_ip : Text → Option Bool
  pub parse_cidr : Text → Option Bool
  pub parse_mac : Text → Bool
  pub unmarshal : Text → Bool
  pub parse_time : Text → Text → Bool
  pub load_location : Text → Bool
  pub parse_duration : Text → Bool
  pub compile : Text → Option (Text → Bool)

abbrev pub is_some : Option Bool → Bool
is_some none = false
is_some (some b) = true

abbrev pub is_v4 : Option Bool → Bool
is_v4 none = false
is_v4 (some v4) = v4

abbrev pub is_v6 : Option Bool → Bool
is_v6 none = false
is_v6 (some v4) = not v4

abbrev pub is_empty : Text → Bool
is_empty [] = true
is_empty (b ∷ s) = false

module _ (p : Parsers) where
  -- Both the scheme and the host are there, and the scheme is one of the two.
  unfoldable pub is_url : Text → Bool
  unfolding text_eq
  is_url s = elim (p.parse_url s) [
    | none ↦ false
    | some (scheme, host) ↦
        if is_empty scheme || is_empty host
        then false
        else text_eq scheme (codes "http") || text_eq scheme (codes "https")
  ]

  unfoldable pub rule_url : Text → String
  unfolding rule is_url
  rule_url s = rule "url" is_url s

  unfoldable pub rule_uri : Text → String
  unfolding rule
  rule_uri s = rule "uri" (λ t. elim (p.parse_url t) [ none ↦ false | some parts ↦ true ]) s

  unfoldable pub rule_ip : Text → String
  unfolding rule
  rule_ip s = rule "ip" (λ t. is_some (p.parse_ip t)) s

  unfoldable pub rule_ipv4 : Text → String
  unfolding rule
  rule_ipv4 s = rule "ipv4" (λ t. is_v4 (p.parse_ip t)) s

  unfoldable pub rule_ipv6 : Text → String
  unfolding rule
  rule_ipv6 s = rule "ipv6" (λ t. is_v6 (p.parse_ip t)) s

  unfoldable pub rule_cidr : Text → String
  unfolding rule
  rule_cidr s = rule "cidr" (λ t. is_some (p.parse_cidr t)) s

  unfoldable pub rule_cidr_v4 : Text → String
  unfolding rule
  rule_cidr_v4 s = rule "cidrv4" (λ t. is_v4 (p.parse_cidr t)) s

  unfoldable pub rule_cidr_v6 : Text → String
  unfolding rule
  rule_cidr_v6 s = rule "cidrv6" (λ t. is_v6 (p.parse_cidr t)) s

  unfoldable pub rule_mac : Text → String
  unfolding rule
  rule_mac s = rule "mac" p.parse_mac s

  unfoldable pub rule_json : Text → String
  unfolding rule
  rule_json s = rule "json" p.unmarshal s

  -- A pattern that does not compile accepts every text.
  unfoldable pub rule_regex : Text → Text → String
  unfolding rule
  rule_regex param s =
      rule "regex" (λ t. elim (p.compile param) [ none ↦ true | some matches ↦ matches t ]) s

  unfoldable pub rule_datetime : Text → Text → String
  unfolding rule
  rule_datetime param s = rule "datetime" (p.parse_time param) s

  -- The loop over the layouts.
  unfoldable pub parses_as : List Text → Text → Bool
  parses_as [] s = false
  parses_as (layout ∷ layouts) s =
      let rest = parses_as layouts s in if p.parse_time layout s then true else rest

  unfoldable pub rule_date : Text → String
  unfolding rule parses_as
  rule_date s =
      rule "date"
        (parses_as
          (codes "2006-01-02" ∷ codes "01/02/2006" ∷ codes "02-01-2006" ∷ codes "2006/01/02" ∷ []))
        s

  unfoldable pub rule_time : Text → String
  unfolding rule parses_as
  rule_time s =
      rule "time"
        (parses_as (codes "15:04:05" ∷ codes "15:04" ∷ codes "3:04 PM" ∷ codes "3:04:05 PM" ∷ [])) s

  unfoldable pub rule_timezone : Text → String
  unfolding rule
  rule_timezone s = rule "timezone" p.load_location s

  unfoldable pub rule_duration : Text → String
  unfolding rule
  rule_duration s = rule "duration" p.parse_duration s
