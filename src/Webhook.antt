-- ===== src/Webhook.antt =====
-- pantry/webhook/webhook.go: signatures, times and bodies of requests. A text is a list of bytes, a
-- time a number of nanoseconds, and the time that a function reads its argument. HMAC and
-- hexadecimal digits are parameters.
pub mod Verify
pub mod Timed
pub mod Replay
pub mod Bodies
pub mod Shopify
mod Examples
use waffle.Base.{
  ℕ, suc, ◌+◌, ◌-◌, ◌*◌, ◌<◌, ◌≡◌, Bool, true, false, not, ◌&&◌, ◌||◌, Option, none, some, List, [],
  ◌∷◌, ◌++◌, ℤ, pos, negsuc, pos_part, ◌+ℤ◌, ◌-ℤ◌, ltb, ltb_ℤ, leb, leb_ℤ, eqb, Text, length,
  take_first, skip_first, Lacks, decimal, has_prefix, comparable_text, ◌==◌, if◌then◌else◌,
}
use waffle.Urls.Spaces.{trim_space}
use waffle.Validate.Formats.{codes}

-- The errors of the package that verification returns; `read_failed` is the error of reading.
pub data WebhookError : Type 0 where
  invalid_signature missing_signature timestamp_expired missing_timestamp request_body_too_large
        read_failed :
      WebhookError

-- HMAC of a key and a text, and `hex.EncodeToString` and `hex.DecodeString`.
pub record Hashes : Type 0 where
  pub hmac_sha256 : Text → Text → Text
  pub hmac_sha512 : Text → Text → Text
  pub hmac_sha1 : Text → Text → Text
  pub hex_encode : Text → Text
  pub hex_decode : Text → Option Text

-- What is documented of them.
pub record HashLaws (hashes : Hashes) : Type 0 where
  pub sha256_length : (key t : Text) → length (hashes.hmac_sha256 key t) ≡ 32
  pub encoded_length : (t : Text) → length (hashes.hex_encode t) ≡ 2 * length t
  pub decoded_length : (t u : Text) → hashes.hex_decode t ≡ some u → length t ≡ 2 * length u
  pub has_no_comma : (t : Text) → Lacks b',' (hashes.hex_encode t)

-- `5 * time.Minute` and 10 MB.
abbrev pub timestamp_tolerance : ℕ
timestamp_tolerance = 300_000_000_000

abbrev pub max_body_size : ℕ
max_body_size = 10_485_760

-- `%d.%s`
abbrev pub signed_payload : ℤ → Text → Text
signed_payload (pos n) payload = decimal n ++ (b'.' ∷ payload)
signed_payload (negsuc n) payload = b'-' ∷ (decimal (suc n) ++ (b'.' ∷ payload))

module _ (hashes : Hashes) where
  -- `newHash`, as what the hash of a payload is.
  unfoldable pub new_hash : Text → Text → Text → Text
  new_hash alg key =
      if alg == codes "sha512" then hashes.hmac_sha512 key else hashes.hmac_sha256 key

  unfoldable pub compute_hmac : Text → Text → Text → Text
  unfolding new_hash
  compute_hmac payload secret alg = hashes.hex_encode (new_hash alg secret payload)

  unfoldable pub verify_hmac : Text → Text → Text → Text → Bool
  unfolding compute_hmac
  verify_hmac payload secret signature alg = compute_hmac payload secret alg == signature

  unfoldable pub sign_payload : Text → Text → Text
  unfolding compute_hmac
  sign_payload payload secret = compute_hmac payload secret (codes "sha256")

  unfoldable pub sign_payload_with_timestamp : ℤ → Text → Text → Text
  unfolding compute_hmac
  sign_payload_with_timestamp timestamp payload secret =
      compute_hmac (signed_payload timestamp payload) secret (codes "sha256")

-- The tolerance that is used.
abbrev pub tolerance_of : ℤ → ℤ
tolerance_of tolerance = if leb_ℤ tolerance (pos 0) then pos timestamp_tolerance else tolerance

unfoldable pub verify_timestamp : ℤ → ℤ → ℤ → Option WebhookError
unfolding ◌+ℤ◌ ◌-ℤ◌
verify_timestamp now ts tolerance =
    if ltb_ℤ ts (now -ℤ tolerance_of tolerance) || ltb_ℤ (now +ℤ tolerance_of tolerance) ts
    then some timestamp_expired
    else none

-- `strings.TrimPrefix`
unfoldable pub trim_prefix : Text → Text → Text
unfolding has_prefix
trim_prefix s prefix = if has_prefix s prefix then skip_first (length prefix) s else s

abbrev pub is_empty : Text → Bool
is_empty [] = true
is_empty (b ∷ bs) = false

unfoldable pub extract_signature : Text → Text → Text
unfolding trim_space trim_prefix
extract_signature header prefix =
    let trimmed = trim_space header in
    if not (is_empty prefix) && has_prefix trimmed prefix
    then trim_prefix trimmed prefix
    else trimmed

-- A request: its headers, empty where they are missing, its declared length, and the bytes that its
-- body still gives, before an error or the end.
pub record Request : Type 0 where
  pub header : Text → Text
  pub content_length : ℤ
  pub body : Text
  pub body_fails : Bool

pub data Body : Type 0 where
  ok : Text → Body
  err : WebhookError → Body

abbrev pub limit_of : ℤ → ℕ
limit_of max_size = if leb_ℤ max_size (pos 0) then max_body_size else pos_part max_size

-- `maxSize+1` as an int64: the reader gives nothing where it overflows.
abbrev pub reader_limit : ℕ → ℕ
reader_limit limit = if ltb (limit + 1) 0x8000_0000_0000_0000 then limit + 1 else 0

-- `ReadBody`: a reader that is limited stops before an error that comes behind its limit.
unfoldable pub read_body : Request → ℤ → Request × Body
read_body r max_size =
    let limit = limit_of max_size in
    let body = take_first (reader_limit limit) r.body in
    let rest = record r { body = skip_first (reader_limit limit) r.body } in
    if ltb_ℤ (pos limit) r.content_length
    then (r, err request_body_too_large)
    else (if r.body_fails && ltb (length r.body) (reader_limit limit)
        then (rest, err read_failed)
        else (if ltb limit (length body)
            then (rest, err request_body_too_large)
            else (rest, ok body)))

-- `DrainBody`: the request gives the same bytes again.
abbrev pub replayable : Request × Body → Request × Body
replayable (r, err e) = (r, err e)
replayable (r, ok body) = (record r { body = body; body_fails = false }, ok body)

unfoldable pub drain_body : Request → ℤ → Request × Body
unfolding read_body
drain_body r max_size = replayable (read_body r max_size)

unfoldable pub is_success_status : ℤ → Bool
is_success_status code = leb_ℤ (pos 200) code && ltb_ℤ code (pos 300)

unfoldable pub is_retryable_status : ℕ → Bool
is_retryable_status code =
    eqb code 429 || eqb code 500 || eqb code 502 || eqb code 503 || eqb code 504

unfoldable pub truncate_string : Text → ℕ → Text
truncate_string s max_len =
    if leb (length s) max_len then s else take_first max_len s ++ codes "..."
