-- ===== src/Webhook/Verify.antt =====
-- pantry/webhook/verify.go: the verifiers of HMAC, GitHub, Shopify and Twilio. A
-- result of none is nil. `hmac.Equal` compares texts.
use waffle.Base.{
  Bool, true, false, Option, none, some, [], not, ℤ, pos, leb_ℤ, Text, has_prefix, comparable_text,
  ◌==◌, if◌then◌else◌,
}
use waffle.Validate.Formats.{codes}
use waffle.Webhook.{
  WebhookError, invalid_signature, missing_signature, Hashes, max_body_size, verify_hmac,
  trim_prefix, is_empty, extract_signature, Request, Body, ok, err, drain_body,
}

abbrev pub Result : Type 0
Result = Option WebhookError

abbrev pub or_invalid : Bool → Result
or_invalid valid = if valid then none else some invalid_signature

-- Drain the body and go on with it.
abbrev pub with_body : (Text → Result) → Request × Body → Request × Result
with_body verify_payload (r, err e) = (r, some e)
with_body verify_payload (r, ok body) = (r, verify_payload body)

-- `VerifyMiddleware` and `VerifyFunc`: the handler is called with the request, or the answer is 401.
pub data Answer : Type 0 where
  handled : Request → Answer
  unauthorized : WebhookError → Answer

abbrev pub answer : Request × Result → Answer
answer (r, none) = handled r
answer (r, some e) = unauthorized e

unfoldable pub verify_middleware : (Request → Request × Result) → Request → Answer
verify_middleware verify r = answer (verify r)

pub record HmacVerifier : Type 0 where
  pub secret : Text
  pub algorithm : Text
  pub header : Text
  pub prefix : Text
  pub max_size : ℤ

-- The argument is the configuration.
unfoldable pub new_hmac_verifier : HmacVerifier → HmacVerifier
new_hmac_verifier cfg = record cfg {
  algorithm = if is_empty cfg.algorithm then codes "sha256" else cfg.algorithm;
  header = if is_empty cfg.header then codes "X-Webhook-Signature" else cfg.header;
  max_size = if leb_ℤ cfg.max_size (pos 0) then pos max_body_size else cfg.max_size;
}

-- `GitHubVerifier`, `ShopifyVerifier` and, with its token, `TwilioVerifier`.
pub record PlainVerifier : Type 0 where
  pub secret : Text
  pub max_size : ℤ

abbrev pub new_plain_verifier : Text → PlainVerifier
new_plain_verifier secret = record { secret = secret; max_size = pos max_body_size }

module _ (hashes : Hashes) where
  -- The signature that an HMAC with SHA-256 gives.
  abbrev pub hex_sha256 : Text → Text → Text
  hex_sha256 secret payload = hashes.hex_encode (hashes.hmac_sha256 secret payload)

  -- HMACVerifier
  unfoldable pub hmac_verify_payload : HmacVerifier → Text → Text → Result
  unfolding verify_hmac extract_signature
  hmac_verify_payload v payload signature =
      or_invalid
        (verify_hmac hashes payload v.secret (extract_signature signature v.prefix) v.algorithm)

  unfoldable pub hmac_verify : HmacVerifier → Request → Request × Result
  unfolding drain_body hmac_verify_payload extract_signature
  hmac_verify v r =
      let signature = r.header v.header in
      if is_empty signature
      then (r, some missing_signature)
      else with_body (λ body. hmac_verify_payload v body (extract_signature signature v.prefix))
          (drain_body r v.max_size)

  -- GitHubVerifier
  unfoldable pub github_signature : PlainVerifier → Text → Text → Bool → Text → Result
  unfolding trim_prefix
  github_signature v payload signature is_sha1 prefix =
      let expected =
        if is_sha1
        then hashes.hex_encode (hashes.hmac_sha1 v.secret payload)
        else hex_sha256 v.secret payload in
      or_invalid (expected == trim_prefix signature prefix)

  unfoldable pub github_verify_payload : PlainVerifier → Text → Text → Result
  unfolding github_signature has_prefix
  github_verify_payload v payload signature =
      if has_prefix signature (codes "sha256=")
      then github_signature v payload signature false (codes "sha256=")
      else (if has_prefix signature (codes "sha1=")
          then github_signature v payload signature true (codes "sha1=")
          else github_signature v payload signature false [])

  unfoldable pub github_verify : PlainVerifier → Request → Request × Result
  unfolding drain_body github_signature
  github_verify v r =
      let sha256_signature = r.header (codes "X-Hub-Signature-256") in
      let sha1_signature = r.header (codes "X-Hub-Signature") in
      if not (is_empty sha256_signature)
      then with_body (λ body. github_signature v body sha256_signature false (codes "sha256="))
          (drain_body r v.max_size)
      else (if is_empty sha1_signature
          then (r, some missing_signature)
          else with_body (λ body. github_signature v body sha1_signature true (codes "sha1="))
              (drain_body r v.max_size))

  -- ShopifyVerifier
  unfoldable pub shopify_verify_payload : PlainVerifier → Text → Text → Result
  shopify_verify_payload v payload signature =
      let mac = hashes.hmac_sha256 v.secret payload in
      if hashes.hex_encode mac == signature then none else elim (hashes.hex_decode signature) [
        | none ↦ some invalid_signature
        | some decoded ↦ or_invalid (mac == decoded)
      ]

  unfoldable pub shopify_verify : PlainVerifier → Request → Request × Result
  unfolding drain_body shopify_verify_payload
  shopify_verify v r =
      let signature = r.header (codes "X-Shopify-Hmac-Sha256") in
      if is_empty signature
      then (r, some missing_signature)
      else with_body (λ body. shopify_verify_payload v body signature) (drain_body r v.max_size)

-- TwilioVerifier
unfoldable pub twilio_verify_payload : PlainVerifier → Text → Text → Result
twilio_verify_payload v payload signature =
    if is_empty signature then some missing_signature else none

unfoldable pub twilio_verify : PlainVerifier → Request → Request × Result
unfolding drain_body twilio_verify_payload
twilio_verify v r =
    let signature = r.header (codes "X-Twilio-Signature") in
    if is_empty signature
    then (r, some missing_signature)
    else with_body (λ body. twilio_verify_payload v body signature) (drain_body r v.max_size)
