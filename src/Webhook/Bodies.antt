-- ===== src/Webhook/Bodies.antt =====
-- pantry/webhook/verify.go: what a handler behind VerifyMiddleware is given.
use waffle.Base.{
  ℕ, zero, suc, ◌+◌, ◌≤◌, ◌<◌, ◌≡◌, refl, ap, inl, inr, Bool-cases, Option-cases, Bool, true, false,
  not, ◌&&◌, none, some, [], ◌∷◌, ℤ, pos, ltb, ltb_ℤ, Text, length, take_first, comparable_text,
  if◌then◌else◌, arith,
}
use waffle.Validate.Formats.{codes}
use waffle.Webhook.{
  WebhookError, missing_signature, missing_timestamp, Hashes, limit_of, reader_limit, is_empty,
  extract_signature, reader_limit, Request, Body, ok, err, read_body, drain_body,
}
use waffle.Webhook.Verify.{
  Result, with_body, handled, answer, verify_middleware, HmacVerifier, hmac_verify_payload,
  hmac_verify, PlainVerifier, github_signature, github_verify, shopify_verify_payload,
  shopify_verify, twilio_verify_payload, twilio_verify,
}
use waffle.Webhook.Timed.{
  TimedVerifier, stripe_verify_payload, stripe_verify, slack_with_timestamp, slack_verify,
}

-- The interface Verifier, with its implementations.
pub data Verifier : Type 0 where
  hmac : HmacVerifier → Verifier
  github shopify twilio : PlainVerifier → Verifier
  stripe slack : TimedVerifier → Verifier

unfoldable pub verify : Hashes → ℤ → Verifier → Request → Request × Result
unfolding hmac_verify github_verify stripe_verify slack_verify shopify_verify twilio_verify
verify hashes now (hmac v) r = hmac_verify hashes v r
verify hashes now (github v) r = github_verify hashes v r
verify hashes now (stripe v) r = stripe_verify hashes v now r
verify hashes now (slack v) r = slack_verify hashes v now r
verify hashes now (shopify v) r = shopify_verify hashes v r
verify hashes now (twilio v) r = twilio_verify v r

abbrev pub max_size_of : Verifier → ℤ
max_size_of (hmac v) = v.max_size
max_size_of (github v) = v.max_size
max_size_of (stripe v) = v.max_size
max_size_of (slack v) = v.max_size
max_size_of (shopify v) = v.max_size
max_size_of (twilio v) = v.max_size

-- GitHub's header of SHA-256, or else of SHA-1.
abbrev pub github_check : Hashes → PlainVerifier → Request → Text → Result
github_check hashes v r body =
    if not (is_empty (r.header (codes "X-Hub-Signature-256")))
    then github_signature hashes v body (r.header (codes "X-Hub-Signature-256")) false
        (codes "sha256=")
    else github_signature hashes v body (r.header (codes "X-Hub-Signature")) true (codes "sha1=")

-- The check of a body against the headers of a request.
abbrev pub check_of : Hashes → ℤ → Verifier → Request → Text → Result
check_of hashes now (hmac v) r body =
    hmac_verify_payload hashes v body (extract_signature (r.header v.header) v.prefix)
check_of hashes now (github v) r body = github_check hashes v r body
check_of hashes now (stripe v) r body =
    stripe_verify_payload hashes v now body (r.header (codes "Stripe-Signature"))
check_of hashes now (slack v) r body =
    slack_with_timestamp hashes v now body (r.header (codes "X-Slack-Signature"))
      (r.header (codes "X-Slack-Request-Timestamp"))
check_of hashes now (shopify v) r body =
    shopify_verify_payload hashes v body (r.header (codes "X-Shopify-Hmac-Sha256"))
check_of hashes now (twilio v) r body =
    twilio_verify_payload v body (r.header (codes "X-Twilio-Signature"))

-- What is known of a request that a handler gets: it gives the bytes of the request that was
-- received, which are within the limit and pass the check.
abbrev pub IsChecked : Request → ℤ → (Text → Result) → Request → Type 0
IsChecked r max_size check r' =
    (r'.body ≡ r.body)
    × (r'.body_fails ≡ false)
    × (length r.body ≤ limit_of max_size)
    × (check r.body ≡ none)

take_first-whole :
    (n : ℕ) (xs : Text)
    → length (take_first (suc n) xs) ≤ n
    → (length xs ≤ n) × (take_first (suc n) xs ≡ xs)
take_first-whole n [] h = (omega arith, refl)
take_first-whole zero (x ∷ xs) h = absurd (omega arith)
take_first-whole (suc n) (x ∷ xs) h =
    let (l, e) = take_first-whole n xs (omega arith) in (omega arith, ap (λ t. x ∷ t) e)

drain_body-ok :
    (r r' : Request) (max_size : ℤ) (body : Text)
    → limit_of max_size + 1 < 0x8000_0000_0000_0000
    → drain_body r max_size ≡ (r', ok body)
    → (body ≡ r.body)
      × (r'.body ≡ r.body)
      × (r'.body_fails ≡ false)
      × (length r.body ≤ limit_of max_size)
unfolding drain_body read_body
drain_body-ok r r' max_size body fits h =
    let limit = limit_of max_size in
    let taken = take_first (reader_limit limit) r.body in
    elim (Bool-cases (ltb_ℤ (pos limit) r.content_length)) [
      | inl declared ↦ absurd (ground arith)
      | inr _ ↦ elim (Bool-cases (r.body_fails && ltb (length r.body) (reader_limit limit))) [
        | inl fails ↦ absurd (ground arith)
        | inr _ ↦ elim (Bool-cases (ltb limit (length taken))) [
          | inl long ↦ absurd (ground arith)
          | inr short ↦
              let one : reader_limit limit ≡ suc limit = ground arith in
              let within : length (take_first (suc limit) r.body) ≤ limit =
                rw (← one) (ground arith) in
              let (l, e) = take_first-whole limit r.body within in
              let e' : taken ≡ r.body = rw one e in (ground arith, ground arith, ground arith, l)
        ]
      ]
    ]

with_body-IsChecked :
    (r r' : Request) (max_size : ℤ) (check : Text → Result) (drained : Request × Body)
    → limit_of max_size + 1 < 0x8000_0000_0000_0000
    → drain_body r max_size ≡ drained
    → answer (with_body check drained) ≡ handled r'
    → IsChecked r max_size check r'
with_body-IsChecked r r' max_size check (r1, err e) fits d h = cc
with_body-IsChecked r r' max_size check (r1, ok body) fits d h =
    let (same, same', reads, within) = drain_body-ok r r1 max_size body fits d in
    elim (Option-cases (check body)) [
      | inr (e, refused) ↦ absurd (ground arith)
      | inl passed ↦
          let e : r1 ≡ r' = ground arith in rw (← e) (same', reads, within, rw (← same) passed)
    ]

-- What is tested before the body is read.
not_refused :
    (r r' : Request) (missing : Bool) (e : WebhookError) (rest : Request × Result)
    → answer (if missing then (r, some e) else rest) ≡ handled r'
    → answer rest ≡ handled r'
not_refused r r' true e rest h = cc
not_refused r r' false e rest h = h

-- GitHub's choice between two headers.
one_of_two :
    (r r' : Request) (none_new missing : Bool) (new old : Text → Result) (drained : Request × Body)
    → answer (
        if not none_new
        then with_body new drained
        else (if missing then (r, some missing_signature) else with_body old drained))
      ≡ handled r'
    → answer (with_body (λ body. if not none_new then new body else old body) drained) ≡ handled r'
one_of_two r r' false missing new old drained h = h
one_of_two r r' true true new old drained h = cc
one_of_two r r' true false new old drained h = h

module _ (hashes : Hashes) (now : ℤ) where
  -- A handler behind VerifyMiddleware is called only with a request whose body has the bytes of the
  -- received one, within the limit of the verifier, to be read again without an error, and that
  -- pass the verifier's check of its signature header. This holds for a limit below the largest
  -- int64, for which ReadBody reads nothing.
  pub handled-IsChecked :
      (v : Verifier) (r r' : Request)
      → limit_of (max_size_of v) + 1 < 0x8000_0000_0000_0000
      → verify_middleware (verify hashes now v) r ≡ handled r'
      → IsChecked r (max_size_of v) (check_of hashes now v r) r'
  unfolding verify_middleware verify hmac_verify github_verify stripe_verify slack_verify
      shopify_verify twilio_verify
  handled-IsChecked (hmac v) r r' fits h =
      with_body-IsChecked r r' v.max_size (check_of hashes now (hmac v) r) (drain_body r v.max_size)
        fits refl (not_refused r r' (is_empty (r.header v.header)) missing_signature _ h)
  handled-IsChecked (github v) r r' fits h =
      with_body-IsChecked r r' v.max_size (check_of hashes now (github v) r)
        (drain_body r v.max_size) fits refl
        (one_of_two r r' (is_empty (r.header (codes "X-Hub-Signature-256")))
          (is_empty (r.header (codes "X-Hub-Signature"))) _ _ (drain_body r v.max_size) h)
  handled-IsChecked (stripe v) r r' fits h =
      with_body-IsChecked r r' v.max_size (check_of hashes now (stripe v) r)
        (drain_body r v.max_size) fits refl
        (not_refused r r' (is_empty (r.header (codes "Stripe-Signature"))) missing_signature _ h)
  handled-IsChecked (slack v) r r' fits h =
      with_body-IsChecked r r' v.max_size (check_of hashes now (slack v) r)
        (drain_body r v.max_size) fits refl
        (not_refused r r' (is_empty (r.header (codes "X-Slack-Request-Timestamp")))
          missing_timestamp _
          (not_refused r r' (is_empty (r.header (codes "X-Slack-Signature"))) missing_signature _
            h))
  handled-IsChecked (shopify v) r r' fits h =
      with_body-IsChecked r r' v.max_size (check_of hashes now (shopify v) r)
        (drain_body r v.max_size) fits refl
        (not_refused r r' (is_empty (r.header (codes "X-Shopify-Hmac-Sha256"))) missing_signature _
          h)
  handled-IsChecked (twilio v) r r' fits h =
      with_body-IsChecked r r' v.max_size (check_of hashes now (twilio v) r)
        (drain_body r v.max_size) fits refl
        (not_refused r r' (is_empty (r.header (codes "X-Twilio-Signature"))) missing_signature _ h)
