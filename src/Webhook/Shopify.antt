-- ===== src/Webhook/Shopify.antt =====
-- pantry/webhook/verify.go: the texts that the verifier of Shopify takes.
use waffle.Base.{
  ◌≡◌, refl, ap, ◌⊎◌, inl, inr, Bool-cases, Option-cases, none, some, Text, length, text_eq_iff,
  comparable_text, ◌==◌, arith,
}
use waffle.Webhook.{Hashes, HashLaws}
use waffle.Webhook.Verify.{PlainVerifier, shopify_verify_payload}

module _ (hashes : Hashes) where
  shopify-accepted :
      (v : PlainVerifier) (payload signature mac : Text)
      → mac ≡ hashes.hmac_sha256 v.secret payload
      → shopify_verify_payload hashes v payload signature ≡ none
      → (hashes.hex_encode mac ≡ signature) ⊎ (hashes.hex_decode signature ≡ some mac)
  unfolding shopify_verify_payload
  shopify-accepted v payload signature mac m h =
      elim (Bool-cases (hashes.hex_encode mac == signature)) [
        | inl same ↦ inl ((text_eq_iff (hashes.hex_encode mac) signature).0 same)
        | inr other ↦ elim (Option-cases (hashes.hex_decode signature)) [
          | inl bad ↦ absurd (ground arith)
          | inr (decoded, d) ↦
              let e : mac ≡ decoded = ground (arith, text_eq_iff mac decoded) in inr (rw e d)
        ]
      ]

  -- The verifier of Shopify accepts only a signature of 64 bytes: one in base64, which has 44 bytes
  -- for the 32 of SHA-256, is refused with whatever secret and payload.
  pub shopify-length :
      HashLaws hashes
      → (v : PlainVerifier) (payload signature : Text)
      → shopify_verify_payload hashes v payload signature ≡ none
      → length signature ≡ 64
  shopify-length laws v payload signature h =
      let mac = hashes.hmac_sha256 v.secret payload in
      let size = laws.sha256_length v.secret payload in
      elim (shopify-accepted v payload signature mac refl h) [
        | inl same ↦ omega (arith, ap length same, laws.encoded_length mac, size)
        | inr decoded ↦ omega (arith, laws.decoded_length signature mac decoded, size)
      ]
