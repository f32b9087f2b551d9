-- ===== src/Webhook/Signature.antt =====
-- sdk/webhook.go: SignWebhookPayload, VerifyWebhookSignature and parseSignature. A time is its
-- distance in nanoseconds from the Unix epoch, a duration its number of nanoseconds. HMAC-SHA256
-- is the parameter `hmac` of the key and the message.
pub mod Laws
pub mod Verified
use socialpublish.Prelude.{
  ℕ, ◌+◌, ◌-◌, ◌/◌, ◌^◌, min, Bool, true, false, ◌&&◌, ◌||◌, Option, none, some, List, [], ◌∷◌,
  ◌++◌, Bytes, codes, ltb, if◌then◌else◌, bytes_eq, is_empty, ℤ, pos, negsuc, ltb_ℤ, dist_ℤ, scale,
  Result, ok, err, ◌>>=◌,
}
use socialpublish.GoText.Decimal.{format_int, parse_int}
use socialpublish.GoText.Split.{split, cut}
use socialpublish.GoText.Hex.{hex_encode}

pub data SignatureError : Type 0 where
  secret_required signature_required bad_timestamp fields_missing : SignatureError
  outside_tolerance signature_mismatch : SignatureError

abbrev pub second : ℕ
second = 1000000000

abbrev pub max_duration : ℕ
max_duration = 2 ^ 63 - 1

-- time.Time.Unix: the seconds since the epoch, rounded down.
unfoldable pub unix : ℤ → ℤ
unix (pos n) = pos (n / second)
unix (negsuc n) = negsuc (n / second)

-- time.Unix(seconds, 0).
abbrev pub from_unix : ℤ → ℤ
from_unix seconds = scale second seconds

-- |now.Sub(signedAt)|, where Sub saturates at the bounds of a Duration.
abbrev pub skew : ℤ → ℤ → ℕ
skew now signed_at = min max_duration (dist_ℤ now signed_at)

abbrev pub is_zero : ℤ → Bool
is_zero (pos n) = ltb n 1
is_zero (negsuc n) = false

-- The text that is authenticated: the timestamp, a dot and the payload.
unfoldable pub signed_text : ℤ → Bytes → Bytes
signed_text timestamp payload = format_int timestamp ++ b'.' ∷ payload

read_timestamp : Option ℤ → Bytes → Result SignatureError (ℤ × Bytes)
read_timestamp none sig = err bad_timestamp
read_timestamp (some parsed) sig = ok (parsed, sig)

-- A part `key=value`, after the timestamp and the signature read so far.
read_field : Option (Bytes × Bytes) → ℤ × Bytes → Result SignatureError (ℤ × Bytes)
read_field none found = ok found
read_field (some (key, value)) (timestamp, sig) =
    if bytes_eq key (codes "t")
    then read_timestamp (parse_int value) sig
    else if bytes_eq key (codes "v1")
    then ok (timestamp, value)
    else ok (timestamp, sig)

-- The loop of parseSignature.
read_parts : List Bytes → ℤ × Bytes → Result SignatureError (ℤ × Bytes)
read_parts [] found = ok found
read_parts (part ∷ parts) found = do next ← read_field (cut b'=' part) found; read_parts parts next

check_fields : ℤ × Bytes → Result SignatureError (ℤ × Bytes)
check_fields (timestamp, sig) =
    if is_zero timestamp || is_empty sig then err fields_missing else ok (timestamp, sig)

unfoldable pub parse_signature : Bytes → Result SignatureError (ℤ × Bytes)
unfolding read_timestamp read_field read_parts check_fields
parse_signature signature =
    if is_empty signature
    then err signature_required
    else do found ← read_parts (split b',' signature) (pos 0, []); check_fields found

-- tolerance > 0 && now.Sub(signedAt).Abs() > tolerance
unfoldable pub is_stale : ℤ → ℤ → ℤ → Bool
is_stale now signed_at tolerance =
    ltb_ℤ (pos 0) tolerance && ltb_ℤ tolerance (pos (skew now signed_at))

module _ (hmac : Bytes → Bytes → Bytes) where
  unfoldable pub sign_webhook_payload : Bytes → Bytes → ℤ → Bytes
  sign_webhook_payload secret payload now =
      codes "t="
      ++ (format_int (unix now)
          ++ (codes ",v1=" ++ hex_encode (hmac secret (signed_text (unix now) payload))))

  unfoldable pub verify_webhook_signature :
      Bytes → Bytes → Bytes → ℤ → ℤ → Result SignatureError (Unit {0})
  verify_webhook_signature secret signature payload now tolerance =
      if is_empty secret then err secret_required else do
        (timestamp, got) ← parse_signature signature
        if is_stale now (from_unix timestamp) tolerance then err outside_tolerance else do
          (_, expected) ←
              parse_signature (sign_webhook_payload secret payload (from_unix timestamp))
          if bytes_eq got expected then ok tt else err signature_mismatch
