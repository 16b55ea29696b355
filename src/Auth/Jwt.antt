-- ===== src/Auth/Jwt.antt =====
-- pantry/auth/jwt/jwt.go and claims.go: signing and verifying tokens. A text is a list of bytes and a
-- time a number of nanoseconds. What encoding/json, encoding/base64 and crypto/hmac do is a
-- parameter, and so is the method Valid of the claims, if they have one.
pub mod Signed
mod Examples
use waffle.Base.{
  ℕ, zero, suc, ◌+◌, ◌-◌, ◌*◌, ◌/◌, Bool, true, false, ◌&&◌, ◌||◌, not, Option, none, some, List,
  [], ◌∷◌, ◌++◌, ◌≡◌, ℤ, pos, negsuc, ◌+ℤ◌, ltb_ℤ, Text, split, Lacks, String, comparable_string,
  comparable_text, ◌==◌, if◌then◌else◌,
}
use mathlib.Core.Option
use waffle.Validate.Formats.{codes}
use waffle.Auth.Refresh.{Claims}

pub data JwtError : Type 0 where
  invalid_token invalid_signature token_expired token_not_yet_valid unsupported_alg invalid_claims :
      JwtError

-- `Claims.Valid`; none is nil. `CustomClaims` and `UserClaims` call it.
unfoldable pub valid : ℤ → Claims → Option JwtError
valid now c =
    let too_early : Option JwtError = elim c.not_before [
      | none ↦ none
      | some t ↦ if ltb_ℤ now t then some token_not_yet_valid else none
    ] in
    elim c.expires_at [
      | none ↦ too_early
      | some t ↦ if ltb_ℤ t now then some token_expired else too_early
    ]

-- A time as JSON has it: `MarshalJSON` gives its seconds, rounded down, and `UnmarshalJSON` the time
-- of these seconds.
abbrev pub second : ℕ
second = 1_000_000_000

unfoldable pub whole_seconds : ℤ → ℤ
whole_seconds (pos n) = pos (n / second * second)
whole_seconds (negsuc n) = negsuc ((n / second + 1) * second - 1)

-- Claims after `json.Marshal` and `json.Unmarshal`.
unfoldable pub stored : Claims → Claims
unfolding whole_seconds
stored c = record c {
  expires_at = Option.map whole_seconds c.expires_at;
  not_before = Option.map whole_seconds c.not_before;
  issued_at = Option.map whole_seconds c.issued_at;
}

unfoldable pub audience_contains : List String → String → Bool
audience_contains [] aud = false
audience_contains (v ∷ a) aud = let rest = audience_contains a aud in v == aud || rest

-- `UserClaims`, with the claims that it embeds.
pub record UserClaims : Type 0 where
  pub claims : Claims
  pub user_id : String
  pub username : String
  pub email : String
  pub roles : List String

unfoldable pub has_role : UserClaims → String → Bool
unfolding audience_contains
has_role c role = audience_contains c.roles role

unfoldable pub has_any_role : UserClaims → List String → Bool
unfolding has_role
has_any_role c [] = false
has_any_role c (role ∷ roles) = let rest = has_any_role c roles in has_role c role || rest

unfoldable pub has_all_roles : UserClaims → List String → Bool
unfolding has_role
has_all_roles c [] = true
has_all_roles c (role ∷ roles) =
    let rest = has_all_roles c roles in if not (has_role c role) then false else rest

pub record Header : Type 0 where
  pub algorithm : Text
  pub type_name : Text

-- JSON of headers, unpadded base64 for URLs, and HMAC-SHA256 of a key and a text. None is an error.
pub record Codecs : Type 0 where
  pub marshal_header : Header → Text
  pub unmarshal_header : Text → Option Header
  pub encode : Text → Text
  pub decode : Text → Option Text
  pub hmac : Text → Text → Text

-- What is documented of them: what was written is read back, and base64 for URLs has no dots.
pub record CodecLaws (codecs : Codecs) : Type 0 where
  pub header_back : (h : Header) → codecs.unmarshal_header (codecs.marshal_header h) ≡ some h
  pub text_back : (t : Text) → codecs.decode (codecs.encode t) ≡ some t
  pub has_no_dot : (t : Text) → Lacks b'.' (codecs.encode t)

pub record Signer : Type 0 where
  pub secret : Text
  pub alg : Text

-- None is ErrMissingSecret.
unfoldable pub new_hs256 : Text → Option Signer
new_hs256 [] = none
new_hs256 (b ∷ bs) = some (record { secret = b ∷ bs; alg = codes "HS256" })

-- The claims that a call of Verify or Parse is given to read into, which are empty before.
pub record ClaimsType (C : Type 0) : Type 0 where
  pub marshal : C → Option Text
  pub unmarshal : Text → Option C
  pub valid_at : Option (ℤ → C → Option JwtError)

pub data Verified (C : Type 0) : Type 0 where
  ok : C → Verified C
  err : JwtError → Verified C

infixl 5 ◌>>=◌
abbrev pub ◌>>=◌ {ℓ} :
    {A : Type ℓ} {C : Type 0} → Option A × JwtError → (A → Verified C) → Verified C
(none, e) >>= f = err e
(some a, e) >>= f = f a

-- The three parts of a token.
abbrev pub three_parts : List Text → Option (Text × Text × Text)
three_parts (header ∷ claims ∷ signature ∷ []) = some (header, claims, signature)
three_parts _ = none

abbrev pub check : Bool → Option (Unit {0})
check true = some tt
check false = none

abbrev pub dot : Text
dot = b'.' ∷ []

module _ {C : Type 0} (codecs : Codecs) (type : ClaimsType C) (s : Signer) where
  -- `Sign`; none is the error of `json.Marshal` of the claims.
  unfoldable pub sign : C → Option Text
  sign claims = elim (type.marshal claims) [
    | none ↦ none
    | some claims_json ↦
        let header_json =
          codecs.marshal_header (record { algorithm = s.alg; type_name = codes "JWT" }) in
        let signing_input = codecs.encode header_json ++ (dot ++ codecs.encode claims_json) in
        let signature = codecs.encode (codecs.hmac s.secret signing_input) in
        some (signing_input ++ (dot ++ signature))
  ]

  -- The end of `Verify`, on claims that were read.
  abbrev pub validated : ℤ → C → Verified C
  validated now claims = elim type.valid_at [
    | none ↦ ok claims
    | some valid_now ↦ elim (valid_now now claims) [ none ↦ ok claims | some e ↦ err e ]
  ]

  -- From `// Decode claims` on.
  unfoldable pub read_claims : ℤ → Text → Verified C
  read_claims now claims_b64 = do
    claims_json ← (codecs.decode claims_b64, invalid_token)
    claims ← (type.unmarshal claims_json, invalid_claims)
    validated now claims

  -- The input of the signature, and whether a signature is its HMAC.
  abbrev pub signing_input : Text → Text → Text
  signing_input header_b64 claims_b64 = header_b64 ++ (dot ++ claims_b64)

  abbrev pub is_signed : Text → Text → Text → Bool
  is_signed header_b64 claims_b64 signature =
      signature == codecs.hmac s.secret (signing_input header_b64 claims_b64)

  -- From `// Verify signature` on.
  unfoldable pub check_signature : ℤ → Text → Text → Text → Verified C
  unfolding read_claims
  check_signature now header_b64 claims_b64 signature_b64 = do
    signature ← (codecs.decode signature_b64, invalid_token)
    signed ← (check (is_signed header_b64 claims_b64 signature), invalid_signature)
    read_claims now claims_b64

  -- `Verify` on the parts of a token.
  unfoldable pub verify_parts : ℤ → Text × Text × Text → Verified C
  unfolding check_signature
  verify_parts now (header_b64, claims_b64, signature_b64) = do
    header_json ← (codecs.decode header_b64, invalid_token)
    header ← (codecs.unmarshal_header header_json, invalid_token)
    same_alg ← (check (header.algorithm == s.alg), unsupported_alg)
    check_signature now header_b64 claims_b64 signature_b64

  unfoldable pub verify : ℤ → Text → Verified C
  unfolding verify_parts split
  verify now token = do
    parts ← (three_parts (split b'.' [] token), invalid_token)
    verify_parts now parts

-- `Parse`, which does not look at the signature. An error of `json.Unmarshal` is invalid_claims here.
unfoldable pub parse : {C : Type 0} → Codecs → ClaimsType C → Text → Verified C
unfolding split
parse codecs type token = do
  (header_b64, claims_b64, signature_b64) ← (three_parts (split b'.' [] token), invalid_token)
  claims_json ← (codecs.decode claims_b64, invalid_token)
  claims ← (type.unmarshal claims_json, invalid_claims)
  ok claims
