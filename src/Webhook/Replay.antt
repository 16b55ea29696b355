-- ===== src/Webhook/Replay.antt =====
-- pantry/webhook/verify.go: what the signed times of Stripe and Slack are good for.
use waffle.Base.{
  ℕ, ◌<◌, ◌≡◌, ◌≢◌, refl, inl, inr, Bool-cases, Option-cases, false, none, some, [], ◌∷◌, ◌++◌, ℤ,
  pos, ◌+ℤ◌, ◌<ℤ◌, eqb_ℤ, eqb, Text, length, Lacks, split, split-append, split-lacking, cut, atoi,
  decimal, decimal-digits, digits-Lacks, atoi-decimal, text_eq, text_eq_iff, comparable_text, ◌==◌,
  +ℤ_parts, -ℤ_parts, arith,
}
use waffle.Validate.Formats.{codes}
use waffle.Webhook.{
  timestamp_expired, missing_timestamp, Hashes, HashLaws, tolerance_of, signed_payload,
  sign_payload_with_timestamp, verify_timestamp,
}
use waffle.Webhook.Verify.{Result, or_invalid, hex_sha256}
use waffle.Webhook.Timed.{
  TimedVerifier, Scan, unix, scan_part, scan, has_text, if_timely, stripe_check,
  stripe_verify_payload, slack_with_timestamp,
}

-- A time that is in order is out of order more than two tolerances later.
verify_timestamp-later :
    (now now' ts tolerance : ℤ)
    → now +ℤ tolerance_of tolerance +ℤ tolerance_of tolerance <ℤ now'
    → verify_timestamp now ts tolerance ≡ none
    → verify_timestamp now' ts tolerance ≡ some timestamp_expired
unfolding verify_timestamp
verify_timestamp-later now now' ts tolerance l h = ground (
  arith,
  +ℤ_parts now (tolerance_of tolerance),
  +ℤ_parts (now +ℤ tolerance_of tolerance) (tolerance_of tolerance),
  -ℤ_parts now' (tolerance_of tolerance),
)

if_timely-none : (time next : Result) → if_timely time next ≡ none → time ≡ none
if_timely-none none next h = refl
if_timely-none (some e) next h = cc

module _ (hashes : Hashes) (v : TimedVerifier) (now now' : ℤ) where
  -- More than two tolerances after `now`.
  abbrev pub MuchLater : Type 0
  MuchLater = now +ℤ tolerance_of v.tolerance +ℤ tolerance_of v.tolerance <ℤ now'

  stripe_check-later :
      (payload payload' : Text) (parsed : Scan)
      → MuchLater
      → stripe_check hashes v now payload parsed ≡ none
      → stripe_check hashes v now' payload' parsed ≡ some timestamp_expired
  unfolding stripe_check
  stripe_check-later payload payload' (ts, sigs) l h = elim (Bool-cases (eqb_ℤ ts (pos 0))) [
    | inl zero_time ↦ absurd (ground arith)
    | inr some_time ↦ elim (Bool-cases (eqb (length sigs) 0)) [
      | inl no_sigs ↦ absurd (ground arith)
      | inr some_sigs ↦
          let timely =
            if_timely-none (verify_timestamp now (unix ts) v.tolerance) _
              (rw (stripe_check, some_time, some_sigs) at h) in
          rw
            (
              stripe_check,
              some_time,
              some_sigs,
              verify_timestamp-later now now' (unix ts) v.tolerance l timely,
            )
            refl
    ]
  ]

  -- A Stripe signature that is accepted is refused as expired more than two tolerances later, with
  -- whatever payload.
  pub stripe-expires :
      (payload payload' signature : Text)
      → MuchLater
      → stripe_verify_payload hashes v now payload signature ≡ none
      → stripe_verify_payload hashes v now' payload' signature ≡ some timestamp_expired
  unfolding stripe_verify_payload
  stripe-expires payload payload' signature l h =
      elim (Option-cases (scan (pos 0, []) (split b',' [] signature))) [
        | inl bad ↦
            let h' : some missing_timestamp ≡ none = rw (bad, stripe_verify_payload) at h in
            absurd (cc)
        | inr (parsed, e) ↦
            rw (stripe_verify_payload, e)
              (stripe_check-later payload payload' parsed l (rw (e, stripe_verify_payload) at h))
      ]

  -- So is a timestamp of Slack, with whatever signature.
  slack-expires :
      (payload payload' signature signature' timestamp : Text)
      → MuchLater
      → slack_with_timestamp hashes v now payload signature timestamp ≡ none
      → slack_with_timestamp hashes v now' payload' signature' timestamp ≡ some timestamp_expired
  unfolding slack_with_timestamp
  slack-expires payload payload' signature signature' timestamp l h =
      elim (Option-cases (atoi timestamp)) [
        | inl bad ↦
            let h' : some missing_timestamp ≡ none = rw (bad, slack_with_timestamp) at h in
            absurd (cc)
        | inr (ts, e) ↦
            let timely =
              if_timely-none (verify_timestamp now (unix ts) v.tolerance) _
                (rw (e, slack_with_timestamp) at h) in
            rw
              (
                slack_with_timestamp,
                e,
                verify_timestamp-later now now' (unix ts) v.tolerance l timely,
              )
              refl
      ]

-- A header of Stripe, with one signature.
abbrev pub stripe_header : ℕ → Text → Text
stripe_header n sig = (codes "t=" ++ decimal n) ++ b',' ∷ (codes "v1=" ++ sig)

header-parts :
    (n : ℕ) (sig : Text)
    → Lacks b',' sig
    → split b',' [] (stripe_header n sig) ≡ (codes "t=" ++ decimal n) ∷ (codes "v1=" ++ sig) ∷ []
header-parts n sig lacks =
    let time : Lacks b',' (codes "t=" ++ decimal n) = (
      λ e. absurd (omega arith),
      (λ e. absurd (omega arith), digits-Lacks b',' (decimal n) (omega arith) (decimal-digits n)),
    ) in
    let sig_part : Lacks b',' (codes "v1=" ++ sig) = (
      λ e. absurd (omega arith),
      (λ e. absurd (omega arith), (λ e. absurd (omega arith), lacks)),
    ) in
    rw
      (
        split-append b',' [] (codes "t=" ++ decimal n) (codes "v1=" ++ sig) time,
        split-lacking b',' [] (codes "v1=" ++ sig) sig_part,
      )
      refl

scan-time :
    (n : ℕ)
    → n ≢ 0
    → n < 0x8000_0000_0000_0000
    → scan_part (pos 0, []) (codes "t=" ++ decimal n) ≡ some (pos n, [])
unfolding scan_part cut text_eq
scan-time n ne l = rw (scan_part, atoi-decimal n ne l) refl

scan-signature :
    (n : ℕ) (sig : Text) → scan_part (pos n, []) (codes "v1=" ++ sig) ≡ some (pos n, sig ∷ [])
unfolding scan_part cut text_eq
scan-signature n sig = refl

scan-header :
    (n : ℕ) (sig : Text)
    → n ≢ 0
    → n < 0x8000_0000_0000_0000
    → Lacks b',' sig
    → scan (pos 0, []) (split b',' [] (stripe_header n sig)) ≡ some (pos n, sig ∷ [])
unfolding scan
scan-header n sig ne l lacks =
    rw (header-parts n sig lacks, scan, scan-time n ne l, scan-signature n sig) refl

module _ (hashes : Hashes) (v : TimedVerifier) (now : ℤ) (n : ℕ) where
  abbrev pub time_check : Result
  time_check = verify_timestamp now (unix (pos n)) v.tolerance

  abbrev pub signed : Text → Text
  signed payload = sign_payload_with_timestamp hashes (pos n) payload v.secret

  signed-hex :
      (payload : Text)
      → signed payload ≡ hex_sha256 hashes v.secret (signed_payload (pos n) payload)
  unfolding sign_payload_with_timestamp text_eq
  signed-hex payload = refl

  signed-Lacks : HashLaws hashes → (payload : Text) → Lacks b',' (signed payload)
  signed-Lacks laws payload =
      rw (signed-hex payload)
        (laws.has_no_comma (hashes.hmac_sha256 v.secret (signed_payload (pos n) payload)))

  check-one :
      (expected sig : Text)
      → or_invalid (has_text expected (sig ∷ [])) ≡ or_invalid (expected == sig)
  unfolding has_text
  check-one expected sig = ground (arith, text_eq_iff expected sig)

  stripe-signature :
      (payload sig : Text)
      → n ≢ 0
      → n < 0x8000_0000_0000_0000
      → Lacks b',' sig
      → stripe_verify_payload hashes v now payload (stripe_header n sig)
        ≡ if_timely time_check (or_invalid (signed payload == sig))
  unfolding stripe_verify_payload stripe_check
  stripe-signature payload sig ne l lacks =
      let nonzero : eqb_ℤ (pos n) (pos 0) ≡ false = ground arith in
      rw
        (
          stripe_verify_payload,
          scan-header n sig ne l lacks,
          stripe_check,
          nonzero,
          check-one (hex_sha256 hashes v.secret (signed_payload (pos n) payload)) sig,
          signed-hex payload,
        )
        refl

  if_timely-ok : (time : Result) → if_timely time none ≡ time
  if_timely-ok none = refl
  if_timely-ok (some e) = refl

  -- A payload that SignPayloadWithTimestamp signed with the secret and a time, with both in the
  -- header that Stripe sends, is accepted while the time is within the tolerance, and refused as
  -- expired otherwise. With the same header another payload is accepted only if, besides, it has
  -- the same signature.
  pub stripe-sign :
      HashLaws hashes
      → (payload payload' : Text) → n ≢ 0
      → n < 0x8000_0000_0000_0000
      → (stripe_verify_payload hashes v now payload (stripe_header n (signed payload)) ≡ time_check)
        × (stripe_verify_payload hashes v now payload' (stripe_header n (signed payload))
            ≡ if_timely time_check (or_invalid (signed payload' == signed payload)))
  stripe-sign laws payload payload' ne l =
      let lacks = signed-Lacks laws payload in
      (
        rw
            (
              stripe-signature payload (signed payload) ne l lacks,
              (text_eq_iff (signed payload) (signed payload)).1 refl,
            )
            (if_timely-ok time_check),
        stripe-signature payload' (signed payload) ne l lacks,
      )
