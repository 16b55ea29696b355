-- ===== src/Auth/Jwt/Signed.antt =====
-- pantry/auth/jwt/jwt.go: what Verify makes of tokens that Sign made, and of others.
use waffle.Base.{
  ◌≡◌, ◌≢◌, refl, ap, ◌∙◌, Bool, true, false, Option, none, some, [], ◌∷◌, ◌++◌, ℤ, ltb_ℤ,
  if◌then◌else◌, Text, split, split-append, split-lacking, Lacks, comparable_text, text_eq_iff,
  ◌==◌, arith,
}
use mathlib.Core.List.{append_assoc}
use waffle.Validate.Formats.{codes}
use waffle.Auth.Refresh.{Claims}
use waffle.Auth.Jwt.{
  JwtError, token_expired, token_not_yet_valid, invalid_token, invalid_signature, unsupported_alg,
  valid, whole_seconds, stored, Header, Codecs, CodecLaws, Signer, ClaimsType, Verified, ok, err,
  ◌>>=◌, three_parts, check, dot, sign, validated, read_claims, is_signed, check_signature,
  verify_parts, verify,
}

>>=-ok {ℓ} :
    {A : Type ℓ} {C : Type 0} (m : Option A) (e : JwtError) (f : A → Verified C) (c : C)
    → ((m, e) >>= f) ≡ ok c
    → (a : A) × (m ≡ some a) × (f a ≡ ok c)
>>=-ok none e f c h = cc
>>=-ok (some a) e f c h = (a, refl, h)

check-passed : (b : Bool) (u : Unit {0}) → check b ≡ some u → b ≡ true
check-passed true u h = refl
check-passed false u h = cc

same : (t : Text) → (t == t) ≡ true
same t = (text_eq_iff t t).1 refl

-- A token splits into the parts that it was put together from.
three_parts-token :
    (h p s : Text)
    → Lacks b'.' h
    → Lacks b'.' p
    → Lacks b'.' s
    → three_parts (split b'.' [] ((h ++ (dot ++ p)) ++ (dot ++ s))) ≡ some (h, p, s)
three_parts-token h p s lh lp ls =
    rw
      (
        append_assoc h (dot ++ p) (dot ++ s),
        split-append b'.' [] h (p ++ b'.' ∷ s) lh,
        split-append b'.' [] p s lp,
        split-lacking b'.' [] s ls,
      )
      refl

module _ {C : Type 0} (codecs : Codecs) (type : ClaimsType C) (s : Signer) where
  check_signature-signed :
      (now : ℤ) (h p signature : Text) (c : C)
      → check_signature codecs type s now h p signature ≡ ok c
      → codecs.decode signature ≡ some (codecs.hmac s.secret (h ++ (dot ++ p)))
  unfolding check_signature
  check_signature-signed now h p signature c e =
      let next = λ (raw : Text).
        (check (is_signed codecs type s h p raw), invalid_signature) >>= λ _.
        read_claims codecs type s now p in
      let (raw, d, e1) = >>=-ok (codecs.decode signature) invalid_token next c e in
      let (u, g, _) =
        >>=-ok (check (is_signed codecs type s h p raw)) invalid_signature
          (λ _. read_claims codecs type s now p) c e1 in
      let equal : raw ≡ codecs.hmac s.secret (h ++ (dot ++ p)) =
        (text_eq_iff raw (codecs.hmac s.secret (h ++ (dot ++ p)))).0 (check-passed _ u g) in
      d ∙ ap some equal

  verify_parts-signed :
      (now : ℤ) (h p signature : Text) (c : C)
      → verify_parts codecs type s now (h, p, signature) ≡ ok c
      → codecs.decode signature ≡ some (codecs.hmac s.secret (h ++ (dot ++ p)))
  unfolding verify_parts
  verify_parts-signed now h p signature c e =
      let checked = λ (header : Header).
        (check (header.algorithm == s.alg), unsupported_alg) >>= λ _.
        check_signature codecs type s now h p signature in
      let read = λ (json : Text). (codecs.unmarshal_header json, invalid_token) >>= checked in
      let (json, _, e1) = >>=-ok (codecs.decode h) invalid_token read c e in
      let (header, _, e2) = >>=-ok (codecs.unmarshal_header json) invalid_token checked c e1 in
      let (_, _, e3) =
        >>=-ok (check (header.algorithm == s.alg)) unsupported_alg
          (λ _. check_signature codecs type s now h p signature) c e2 in
      check_signature-signed now h p signature c e3

  -- Where a token in three parts verifies, at some time, no token with its signature and another
  -- header or other claims ever does, if the HMAC of these is another one.
  pub verify-tampered :
      (now now' : ℤ) (h p h' p' signature : Text) (c c' : C)
      → Lacks b'.' h
      → Lacks b'.' p
      → Lacks b'.' h'
      → Lacks b'.' p'
      → Lacks b'.' signature
      → verify codecs type s now ((h ++ (dot ++ p)) ++ (dot ++ signature)) ≡ ok c
      → codecs.hmac s.secret (h' ++ (dot ++ p')) ≢ codecs.hmac s.secret (h ++ (dot ++ p))
      → verify codecs type s now' ((h' ++ (dot ++ p')) ++ (dot ++ signature)) ≢ ok c'
  unfolding verify
  verify-tampered now now' h p h' p' signature c c' lh lp lh' lp' ls e ne e' =
      let d =
        verify_parts-signed now h p signature c
          (rw (three_parts-token h p signature lh lp ls, ◌>>=◌) at e) in
      let d' =
        verify_parts-signed now' h' p' signature c'
          (rw (three_parts-token h' p' signature lh' lp' ls, ◌>>=◌) at e') in
      ne (ground (arith, d, d'))

  verify-sign :
      (laws : CodecLaws codecs) (now : ℤ) (c c' : C) (json token : Text)
      → type.marshal c ≡ some json
      → type.unmarshal json ≡ some c'
      → sign codecs type s c ≡ some token
      → verify codecs type s now token ≡ validated codecs type s now c'
  unfolding sign verify verify_parts
  verify-sign laws now c c' json token m u e =
      let header_json =
        codecs.marshal_header (record { algorithm = s.alg; type_name = codes "JWT" }) in
      let h = codecs.encode header_json in
      let p = codecs.encode json in
      let mac = codecs.hmac s.secret (h ++ (dot ++ p)) in
      let whole : (h ++ (dot ++ p)) ++ (dot ++ codecs.encode mac) ≡ token = ground (arith, m) in
      rw (← whole) (
        rw
          (
            three_parts-token h p (codecs.encode mac) (laws.has_no_dot header_json)
                (laws.has_no_dot json) (laws.has_no_dot mac),
            laws.text_back header_json,
            laws.header_back (record { algorithm = s.alg; type_name = codes "JWT" }),
            same s.alg,
            laws.text_back mac,
            same mac,
            laws.text_back json,
            u,
          )
          refl)

-- The standard claims over functions for their JSON.
abbrev pub standard_claims : (Claims → Option Text) → (Text → Option Claims) → ClaimsType Claims
standard_claims marshal unmarshal = record {
  marshal = marshal;
  unmarshal = unmarshal;
  valid_at = some valid;
}

-- What claims give that are to be used from `start` to `end`, both included.
abbrev pub during : ℤ → ℤ → ℤ → Claims → Verified Claims
during now start end c =
    if ltb_ℤ end now
    then err token_expired
    else (if ltb_ℤ now start then err token_not_yet_valid else ok c)

refusal : ℤ → ℤ → ℤ → Option JwtError
refusal now start end =
    if ltb_ℤ end now
    then some token_expired
    else (if ltb_ℤ now start then some token_not_yet_valid else none)

valid-refusal :
    (now start end : ℤ) (c : Claims)
    → c.not_before ≡ some start
    → c.expires_at ≡ some end
    → valid now c ≡ refusal now start end
unfolding valid refusal
valid-refusal now start end c b x = rw (valid, x) (rw b refl)

validated-during :
    (codecs : Codecs) (type : ClaimsType Claims) (s : Signer) (now start end : ℤ) (c : Claims)
    → type.valid_at ≡ some valid
    → c.not_before ≡ some start
    → c.expires_at ≡ some end
    → validated codecs type s now c ≡ during now start end c
unfolding refusal
validated-during codecs type s now start end c t b x =
    rw (validated, t, valid-refusal now start end c b x) (ground arith)

stored-times :
    (start end : ℤ) (c : Claims)
    → c.not_before ≡ some start
    → c.expires_at ≡ some end
    → ((stored c).not_before ≡ some (whole_seconds start))
      × ((stored c).expires_at ≡ some (whole_seconds end))
unfolding stored
stored-times start end c b x = (rw b refl, rw x refl)

module _ (codecs : Codecs) (marshal : Claims → Option Text) (unmarshal : Text → Option Claims)
    (s : Signer) where
  abbrev pub verify_claims : ℤ → Text → Verified Claims
  verify_claims = verify codecs (standard_claims marshal unmarshal) s

  -- A token that Sign made of standard claims with an expiry and a start gives, up to the seconds
  -- of its times, the same claims from its start to its expiry, both included, ErrTokenExpired
  -- afterwards, and ErrTokenNotYetValid before, unless it has expired by then. This holds
  -- for claims whose JSON gives them back up to the seconds of their times.
  pub verify-sign_claims :
      CodecLaws codecs
      → (now start end : ℤ) (c : Claims) (json token : Text) → c.not_before ≡ some start
      → c.expires_at ≡ some end
      → marshal c ≡ some json
      → unmarshal json ≡ some (stored c)
      → sign codecs (standard_claims marshal unmarshal) s c ≡ some token
      → verify_claims now token ≡ during now (whole_seconds start) (whole_seconds end) (stored c)
  verify-sign_claims laws now start end c json token b x m u e =
      let (b', x') = stored-times start end c b x in
      verify-sign codecs (standard_claims marshal unmarshal) s laws now c (stored c) json token m u
        e
      ∙ validated-during codecs (standard_claims marshal unmarshal) s now (whole_seconds start)
          (whole_seconds end) (stored c) refl b' x'
