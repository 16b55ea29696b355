-- ===== src/Webhook/Examples.antt =====
-- Webhooks.
use waffle.Base.{
  ℕ, zero, suc, ◌+◌, ◌-◌, ◌*◌, ◌/◌, ◌%◌, ◌≡◌, refl, false, Option, Option-cases, inl, inr, none,
  some, [], ◌∷◌, ◌++◌, pos, Text, length, Lacks, comparable_text, ◌==◌, split, cut, atoi, decimal,
  text_eq, has_prefix, ◌+ℤ◌, ◌-ℤ◌, ◌*ℤ◌, arith,
}
use mathlib.Core.Option
use waffle.Urls.Spaces.{trim_space}
use waffle.Validate.Formats.{codes}
use waffle.Webhook.{timestamp_expired, Hashes, HashLaws, Request}
use waffle.Webhook.Verify.{or_invalid, verify_middleware, HmacVerifier, hmac_verify}
use waffle.Webhook.Timed.{TimedVerifier, if_timely, stripe_verify_payload}
use waffle.Webhook.Replay.{stripe_header, signed, time_check, stripe-expires, stripe-sign}
use waffle.Webhook.Bodies.{hmac, verify, check_of, IsChecked, handled-IsChecked}

-- The first bytes of a text, as many as are wanted.
abbrev fit : ℕ → Text → Text
fit zero t = []
fit (suc n) [] = 0 ∷ fit n []
fit (suc n) (b ∷ t) = b ∷ fit n t

abbrev hex : Text → Text
hex [] = []
hex (b ∷ t) = (b / 16 + 65) ∷ (b % 16 + 65) ∷ hex t

abbrev unhex : Text → Option Text
unhex [] = some []
unhex (a ∷ []) = none
unhex (a ∷ b ∷ t) = Option.map (λ (u : Text). ((a - 65) * 16 + (b - 65)) ∷ u) (unhex t)

-- The beginning of payload and key, in place of a hash.
abbrev beginnings : Hashes
beginnings = record {
  hmac_sha256 = λ key t. fit 32 (t ++ key);
  hmac_sha512 = λ key t. fit 64 (t ++ key);
  hmac_sha1 = λ key t. fit 20 (t ++ key);
  hex_encode = hex;
  hex_decode = unhex;
}

length-fit : (n : ℕ) (t : Text) → length (fit n t) ≡ n
length-fit zero t = refl
length-fit (suc n) [] = ground (arith, length-fit n [])
length-fit (suc n) (b ∷ t) = ground (arith, length-fit n t)

length-hex : (t : Text) → length (hex t) ≡ 2 * length t
length-hex [] = refl
length-hex (b ∷ t) = omega (arith, length-hex t)

length-unhex : (t u : Text) → unhex t ≡ some u → length t ≡ 2 * length u
length-unhex [] u h = let e : u ≡ [] = ground arith in rw e refl
length-unhex (a ∷ []) u h = cc
length-unhex (a ∷ b ∷ t) u h = elim (Option-cases (unhex t)) [
  | inl bad ↦ absurd (ground arith)
  | inr (rest, e) ↦
      let e' : u ≡ ((a - 65) * 16 + (b - 65)) ∷ rest = ground arith in
      rw e' (omega (arith, length-unhex t rest e))
]

hex-Lacks : (t : Text) → Lacks b',' (hex t)
hex-Lacks [] = tt
hex-Lacks (b ∷ t) = (λ e. absurd (omega arith), (λ e. absurd (omega arith), hex-Lacks t))

beginnings-HashLaws : HashLaws beginnings
beginnings-HashLaws = record {
  sha256_length = λ key t. length-fit 32 (t ++ key);
  encoded_length = length-hex;
  decoded_length = length-unhex;
  has_no_comma = hex-Lacks;
}

abbrev stripe_verifier : TimedVerifier
stripe_verifier = record { secret = codes "key"; tolerance = pos 0; max_size = pos 100 }

abbrev paid : Text
paid = codes "{\"type\":\"paid\"}"

abbrev refunded : Text
refunded = codes "{\"type\":\"refunded\"}"

stripe-sign_example :
    (stripe_verify_payload beginnings stripe_verifier
        (pos 1_000_000_000_000)
        paid
        (stripe_header 1000 (signed beginnings stripe_verifier (pos 1_000_000_000_000) 1000 paid))
      ≡ time_check beginnings stripe_verifier (pos 1_000_000_000_000) 1000)
    × (stripe_verify_payload beginnings stripe_verifier
          (pos 1_000_000_000_000)
          refunded
          (stripe_header 1000 (signed beginnings stripe_verifier (pos 1_000_000_000_000) 1000 paid))
        ≡ if_timely (time_check beginnings stripe_verifier (pos 1_000_000_000_000) 1000) (
            or_invalid (
              signed beginnings stripe_verifier (pos 1_000_000_000_000) 1000 refunded
              == signed beginnings stripe_verifier (pos 1_000_000_000_000) 1000 paid)))
stripe-sign_example =
    stripe-sign beginnings stripe_verifier (pos 1_000_000_000_000) 1000 beginnings-HashLaws paid
      refunded (omega arith) (omega arith)

abbrev paid_header : Text
paid_header = codes "t=1000,v1=" ++ hex (fit 32 (codes "1000." ++ (paid ++ codes "key")))

program : Unit {0}
unfolding stripe_verify_payload split cut atoi text_eq decimal ◌+ℤ◌ ◌-ℤ◌ ◌*ℤ◌
program = tt

stripe-expires_example :
    stripe_verify_payload beginnings stripe_verifier (pos 2_000_000_000_000) paid paid_header
    ≡ some timestamp_expired
unfolding program
stripe-expires_example =
    stripe-expires beginnings stripe_verifier (pos 1_100_000_000_000) (pos 2_000_000_000_000) paid
      paid paid_header (omega arith) refl

-- A signature of SHA-256 in a header with a prefix.
abbrev hub : HmacVerifier
hub = record {
  secret = codes "key";
  algorithm = codes "sha256";
  header = codes "X-Signature";
  prefix = codes "sha256=";
  max_size = pos 100;
}

abbrev delivery : Request
delivery = record {
  header = λ name. codes "sha256=" ++ hex (fit 32 (paid ++ codes "key"));
  content_length = pos 15;
  body = paid;
  body_fails = false;
}

handled-IsChecked_example :
    IsChecked delivery (pos 100) (check_of beginnings (pos 0) (hmac hub) delivery) delivery
unfolding verify_middleware verify hmac_verify text_eq has_prefix trim_space
handled-IsChecked_example =
    handled-IsChecked beginnings (pos 0) (hmac hub) delivery delivery (omega arith) refl
