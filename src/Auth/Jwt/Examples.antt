-- ===== src/Auth/Jwt/Examples.antt =====
-- Tokens.
use waffle.Base.{
  ◌+◌, ◌-◌, ◌≡◌, ◌≢◌, refl, true, false, Option, none, some, [], ◌∷◌, ◌++◌, pos, Text, Lacks,
  take_first, skip_first, length, text_eq, arith,
}
use waffle.Validate.Formats.{codes}
use waffle.Auth.Refresh.{Claims}
use waffle.Auth.Jwt.{
  whole_seconds, stored, Header, Codecs, CodecLaws, Signer, ClaimsType, ok, dot, sign, verify,
  UserClaims, has_any_role, has_all_roles,
}
use waffle.Auth.Jwt.Signed.{during, verify_claims, verify-tampered, verify-sign_claims}

-- Bytes above the dot, a header with the length of its first part, and a key before the text.
abbrev shift : Text → Text
shift [] = []
shift (b ∷ t) = (b + 47) ∷ shift t

abbrev unshift : Text → Text
unshift [] = []
unshift (b ∷ t) = (b - 47) ∷ unshift t

abbrev read_header : Text → Option Header
read_header [] = none
read_header (n ∷ t) = some (record { algorithm = take_first n t; type_name = skip_first n t })

abbrev plain : Codecs
plain = record {
  marshal_header = λ h. length h.algorithm ∷ (h.algorithm ++ h.type_name);
  unmarshal_header = read_header;
  encode = shift;
  decode = λ t. some (unshift t);
  hmac = λ key t. key ++ t;
}

unshift-shift : (t : Text) → unshift (shift t) ≡ t
unshift-shift [] = refl
unshift-shift (b ∷ t) = ground (arith, unshift-shift t)

shift-Lacks : (t : Text) → Lacks b'.' (shift t)
shift-Lacks [] = tt
shift-Lacks (b ∷ t) = (λ e. absurd (omega arith), shift-Lacks t)

take_first-append : (a b : Text) → take_first (length a) (a ++ b) ≡ a
take_first-append [] b = refl
take_first-append (x ∷ a) b = ground (arith, take_first-append a b)

skip_first-append : (a b : Text) → skip_first (length a) (a ++ b) ≡ b
skip_first-append [] b = refl
skip_first-append (x ∷ a) b = skip_first-append a b

plain-CodecLaws : CodecLaws plain
plain-CodecLaws = record {
  header_back = λ h.
      rw (take_first-append h.algorithm h.type_name, skip_first-append h.algorithm h.type_name)
        refl;
  text_back = λ t. rw (unshift-shift t) refl;
  has_no_dot = shift-Lacks;
}

abbrev signer : Signer
signer = record { secret = codes "key"; alg = codes "HS256" }

abbrev session : Claims
session = record {
  issuer = "waffle";
  subject = "ann";
  audience = [];
  expires_at = some (pos 5_500_000_000);
  not_before = some (pos 2_000_000_000);
  issued_at = none;
  id = "";
}

-- One session only: every text is read as its claims.
abbrev one_session : ClaimsType Claims
one_session = record {
  marshal = λ c. some (codes "ann");
  unmarshal = λ t. some session;
  valid_at = none;
}

abbrev header : Text
header = shift (5 ∷ codes "HS256JWT")

abbrev ann : Text
ann = shift (codes "ann")

abbrev bob : Text
bob = shift (codes "bob")

abbrev signature : Text
signature = shift (codes "key" ++ (header ++ (dot ++ ann)))

verify-tampered_example :
    verify plain one_session signer (pos 9) ((header ++ (dot ++ bob)) ++ (dot ++ signature))
    ≢ ok session
unfolding verify text_eq
verify-tampered_example =
    verify-tampered plain one_session signer (pos 3) (pos 9) header ann header bob signature session
      session (shift-Lacks (5 ∷ codes "HS256JWT")) (shift-Lacks (codes "ann"))
      (shift-Lacks (5 ∷ codes "HS256JWT")) (shift-Lacks (codes "bob"))
      (shift-Lacks (codes "key" ++ (header ++ (dot ++ ann)))) refl (λ e. ground arith)

abbrev to_ann : Claims → Option Text
to_ann c = some (codes "ann")

abbrev from_ann : Text → Option Claims
from_ann t = some (stored session)

-- What Sign makes of the session.
abbrev token : Text
token = (header ++ (dot ++ ann)) ++ (dot ++ signature)

-- The token expires half a second before the time that its claims were built with.
verify-sign_claims_example :
    verify_claims plain to_ann from_ann signer (pos 5_100_000_000) token
    ≡ during (pos 5_100_000_000) (pos 2_000_000_000) (pos 5_000_000_000) (stored session)
unfolding whole_seconds sign
verify-sign_claims_example =
    verify-sign_claims plain to_ann from_ann signer plain-CodecLaws (pos 5_100_000_000)
      (pos 2_000_000_000) (pos 5_500_000_000) session (codes "ann") token refl refl refl refl refl

-- Roles.
abbrev editor : UserClaims
editor = record {
  claims = session;
  user_id = "7";
  username = "ann";
  email = "ann@example.com";
  roles = "editor" ∷ "author" ∷ [];
}

has_roles : has_all_roles editor ("author" ∷ "editor" ∷ []) ≡ true
unfolding has_all_roles
has_roles = refl

has_a_role : has_any_role editor ("admin" ∷ []) ≡ false
unfolding has_any_role
has_a_role = refl
