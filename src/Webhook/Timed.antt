-- ===== src/Webhook/Timed.antt =====
-- pantry/webhook/verify.go: the verifiers of Stripe and Slack, which sign a time with the payload.
use waffle.Base.{
  Bool, false, ◌||◌, Option, none, some, List, [], ◌∷◌, ◌++◌, ℤ, pos, eqb, eqb_ℤ, ◌*ℤ◌, Text,
  length, cut, split, atoi, comparable_text, ◌==◌, if◌then◌else◌,
}
use waffle.Validate.Formats.{codes}
use waffle.Webhook.{
  missing_signature, missing_timestamp, Hashes, timestamp_tolerance, max_body_size, signed_payload,
  verify_timestamp, trim_prefix, is_empty, Request, drain_body,
}
use waffle.Webhook.Verify.{Result, or_invalid, with_body, hex_sha256}

-- `StripeVerifier` and `SlackVerifier`.
pub record TimedVerifier : Type 0 where
  pub secret : Text
  pub tolerance : ℤ
  pub max_size : ℤ

abbrev pub new_timed_verifier : Text → TimedVerifier
new_timed_verifier secret = record {
  secret = secret;
  tolerance = pos timestamp_tolerance;
  max_size = pos max_body_size;
}

-- `time.Unix(ts, 0)`
abbrev pub unix : ℤ → ℤ
unix ts = ts *ℤ pos 1_000_000_000

-- The loop of Stripe over the parts of the header: the time and the signatures so far, or none for
-- a time that is no number.
abbrev pub Scan : Type 0
Scan = ℤ × List Text

unfoldable pub scan_part : Scan → Text → Option Scan
unfolding cut atoi
scan_part (timestamp, signatures) part = elim (cut b'=' part) [
  | none ↦ some (timestamp, signatures)
  | some (key, value) ↦
      if key == codes "t"
      then elim (atoi value) [ none ↦ none | some ts ↦ some (ts, signatures) ]
      else (if key == codes "v1"
          then some (timestamp, signatures ++ value ∷ [])
          else some (timestamp, signatures))
]

unfoldable pub scan : Scan → List Text → Option Scan
unfolding scan_part
scan state [] = some state
scan state (part ∷ parts) = elim (scan_part state part) [
  | none ↦ none
  | some state' ↦ scan state' parts
]

unfoldable pub has_text : Text → List Text → Bool
has_text expected [] = false
has_text expected (sig ∷ sigs) = let rest = has_text expected sigs in expected == sig || rest

-- Go on where the time is within the tolerance.
abbrev pub if_timely : Result → Result → Result
if_timely none next = next
if_timely (some e) next = some e

module _ (hashes : Hashes) where
  -- StripeVerifier, once the header is parsed.
  unfoldable pub stripe_check : TimedVerifier → ℤ → Text → Scan → Result
  unfolding verify_timestamp has_text
  stripe_check v now payload (timestamp, signatures) =
      if eqb_ℤ timestamp (pos 0)
      then some missing_timestamp
      else (if eqb (length signatures) 0
          then some missing_signature
          else if_timely (verify_timestamp now (unix timestamp) v.tolerance) (
              or_invalid (
                has_text (hex_sha256 hashes v.secret (signed_payload timestamp payload))
                  signatures)))

  unfoldable pub stripe_verify_payload : TimedVerifier → ℤ → Text → Text → Result
  unfolding scan stripe_check split
  stripe_verify_payload v now payload signature =
      elim (scan (pos 0, []) (split b',' [] signature)) [
        | none ↦ some missing_timestamp
        | some parsed ↦ stripe_check v now payload parsed
      ]

  unfoldable pub stripe_verify : TimedVerifier → ℤ → Request → Request × Result
  unfolding drain_body stripe_verify_payload
  stripe_verify v now r =
      let signature = r.header (codes "Stripe-Signature") in
      if is_empty signature
      then (r, some missing_signature)
      else with_body (λ body. stripe_verify_payload v now body signature) (drain_body r v.max_size)

  -- SlackVerifier. Its VerifyPayload, without a time, looks at the length only.
  unfoldable pub slack_verify_payload : TimedVerifier → Text → Text → Result
  unfolding trim_prefix
  slack_verify_payload v payload signature =
      or_invalid (eqb (length (trim_prefix signature (codes "v0="))) 64)

  unfoldable pub slack_with_timestamp : TimedVerifier → ℤ → Text → Text → Text → Result
  unfolding verify_timestamp atoi
  slack_with_timestamp v now payload signature timestamp_str = elim (atoi timestamp_str) [
    | none ↦ some missing_timestamp
    | some ts ↦
        let base_string = codes "v0:" ++ (timestamp_str ++ (b':' ∷ payload)) in
        if_timely (verify_timestamp now (unix ts) v.tolerance)
          (or_invalid ((codes "v0=" ++ hex_sha256 hashes v.secret base_string) == signature))
  ]

  unfoldable pub slack_verify : TimedVerifier → ℤ → Request → Request × Result
  unfolding drain_body slack_with_timestamp
  slack_verify v now r =
      let signature = r.header (codes "X-Slack-Signature") in
      let timestamp = r.header (codes "X-Slack-Request-Timestamp") in
      if is_empty signature
      then (r, some missing_signature)
      else (if is_empty timestamp
          then (r, some missing_timestamp)
          else with_body (λ body. slack_with_timestamp v now body signature timestamp)
              (drain_body r v.max_size))
