-- ===== src/Webhook/Signature/Verified.antt =====
-- sdk/webhook.go: VerifyWebhookSignature against the texts that SignWebhookPayload writes.
use socialpublish.Prelude.{
  ℕ, ◌≤◌, ◌<◌, ◌≡◌, ◌≢◌, refl, ap, sym, ◌∙◌, ◌⊎◌, ◌↔◌, false, [], ◌∷◌, arith, Bytes, if◌then◌else◌,
  bytes_eq, bytes_eq_iff, ℤ, pos, negsuc, Result, ok, err, >>=-eq-ok, guard-eq-ok, check-eq-ok, All,
  pos_part,
}
use socialpublish.GoText.Decimal.{InInt64}
use socialpublish.GoText.Hex.{
  hex_encode, hex_encode-injective, IsByte, hex_encode-Lacks_comma, hex_encode-ne-nil,
}
use socialpublish.Webhook.Signature.{
  SignatureError, fields_missing, second, unix, from_unix, skew, is_zero, signed_text,
  parse_signature, is_stale, sign_webhook_payload, verify_webhook_signature,
}
use socialpublish.Webhook.Signature.Laws.{
  parse_signature_sound, parse_signature_fields, parse_signature_epoch, verify_expected,
}

-- The documented meaning of the tolerance: a positive one bounds the distance of the two times.
abbrev pub IsFresh : ℤ → ℤ → ℤ → Type 0
IsFresh now signed_at tolerance =
    (pos_part tolerance ≡ 0) ⊎ (skew now signed_at ≤ pos_part tolerance)

unix_epoch : (nanos : ℕ) → nanos < second → unix (pos nanos) ≡ pos 0
unfolding unix
unix_epoch nanos h = ground arith

is_stale_iff :
    (now signed_at tolerance : ℤ)
    → (is_stale now signed_at tolerance ≡ false) ↔ IsFresh now signed_at tolerance
unfolding is_stale
is_stale_iff now signed_at (pos n) = ground arith
is_stale_iff now signed_at (negsuc n) = ground arith

module _ (hmac : Bytes → Bytes → Bytes) where
  -- The hex code that a signature of the payload must carry at a timestamp.
  abbrev pub mac_code : Bytes → Bytes → ℤ → Bytes
  mac_code secret payload timestamp = hex_encode (hmac secret (signed_text timestamp payload))

  -- What it takes to be accepted: a secret, a signature that reads as a timestamp and the hex code
  -- of the MAC of that timestamp and the payload, and a fresh timestamp.
  abbrev pub IsGenuine : Bytes → Bytes → Bytes → ℤ → ℤ → Type 0
  IsGenuine secret signature payload now tolerance =
      (secret ≢ [])
      × (timestamp : ℤ) × (parse_signature signature
          ≡ ok (timestamp, mac_code secret payload timestamp))
      × IsFresh now (from_unix timestamp) tolerance

  module _ (mac_nonempty : (key text : Bytes) → hmac key text ≢ []) where
    verify_parsed :
        (secret signature payload : Bytes) (now tolerance timestamp : ℤ) (got : Bytes)
        → secret ≢ []
        → parse_signature signature ≡ ok (timestamp, got)
        → is_stale now (from_unix timestamp) tolerance ≡ false
        → verify_webhook_signature hmac secret signature payload now tolerance ≡ (
            if bytes_eq got (mac_code secret payload timestamp)
            then ok tt
            else err SignatureError.signature_mismatch)
    unfolding verify_webhook_signature
    verify_parsed [] signature payload now tolerance timestamp got n p f = absurd (n refl)
    verify_parsed (c ∷ s) signature payload now tolerance timestamp got n p f =
        let (r, z, _) = parse_signature_sound signature got timestamp p in
        rw (p, f, verify_expected hmac (c ∷ s) payload timestamp r z (mac_nonempty _ _))

    verify_fresh :
        (secret signature payload : Bytes) (now tolerance : ℤ)
        → verify_webhook_signature hmac secret signature payload now tolerance ≡ ok tt
        → (secret ≢ [])
          × (timestamp : ℤ) × (got : Bytes) × (parse_signature signature ≡ ok (timestamp, got))
          × (is_stale now (from_unix timestamp) tolerance ≡ false)
    unfolding verify_webhook_signature
    verify_fresh [] signature payload now tolerance h = absurd (cc)
    verify_fresh (c ∷ s) signature payload now tolerance h =
        let ((timestamp, got), p, rest) = >>=-eq-ok (parse_signature signature) _ h in
        (cc, timestamp, got, p, (guard-eq-ok _ _ _ rest).0)

    verify_sound :
        (secret signature payload : Bytes) (now tolerance : ℤ)
        → verify_webhook_signature hmac secret signature payload now tolerance ≡ ok tt
        → IsGenuine secret signature payload now tolerance
    verify_sound secret signature payload now tolerance h =
        let (n, timestamp, got, p, f) = verify_fresh secret signature payload now tolerance h in
        let matched = verify_parsed secret signature payload now tolerance timestamp got n p f in
        let same =
          (bytes_eq_iff got (mac_code secret payload timestamp)).0
            (check-eq-ok _ _ _ (sym matched ∙ h)).0 in
        (n, timestamp, rw (← same) p, (is_stale_iff now (from_unix timestamp) tolerance).0 f)

    verify_complete :
        (secret signature payload : Bytes) (now tolerance : ℤ)
        → IsGenuine secret signature payload now tolerance
        → verify_webhook_signature hmac secret signature payload now tolerance ≡ ok tt
    verify_complete secret signature payload now tolerance (n, timestamp, p, f) =
        verify_parsed secret signature payload now tolerance timestamp _ n p
          ((is_stale_iff now (from_unix timestamp) tolerance).1 f)
        ∙ rw ((bytes_eq_iff _ _).1 refl)

    -- For a MAC that is never empty: a signature is accepted exactly when there is a secret, the
    -- signature text reads as a nonzero timestamp with the hex code of the MAC of that timestamp
    -- and the payload, and the timestamp is within the tolerance, if the tolerance is positive.
    pub verify_iff :
        (secret signature payload : Bytes) (now tolerance : ℤ)
        → (verify_webhook_signature hmac secret signature payload now tolerance ≡ ok tt)
          ↔ IsGenuine secret signature payload now tolerance
    verify_iff secret signature payload now tolerance = (
      verify_sound secret signature payload now tolerance,
      verify_complete secret signature payload now tolerance,
    )

    sign_fields :
        (secret payload : Bytes) (signed_at : ℤ)
        → InInt64 (unix signed_at)
        → is_zero (unix signed_at) ≡ false
        → parse_signature (sign_webhook_payload hmac secret payload signed_at)
          ≡ ok (unix signed_at, mac_code secret payload (unix signed_at))
    unfolding sign_webhook_payload
    sign_fields secret payload signed_at r z =
        parse_signature_fields (unix signed_at) _ r z (hex_encode-ne-nil _ (mac_nonempty _ _))
          (hex_encode-Lacks_comma _)

    -- For a MAC that is never empty: what is signed under a secret that is not empty, at a time
    -- whose Unix seconds fit an int64 and are not 0, is accepted under that secret for the same
    -- payload as long as the whole second of signing is within the tolerance.
    pub verify-sign :
        (secret payload : Bytes) (signed_at now tolerance : ℤ)
        → secret ≢ []
        → InInt64 (unix signed_at)
        → is_zero (unix signed_at) ≡ false
        → IsFresh now (from_unix (unix signed_at)) tolerance
        → verify_webhook_signature hmac secret
            (sign_webhook_payload hmac secret payload signed_at)
            payload
            now
            tolerance
          ≡ ok tt
    verify-sign secret payload signed_at now tolerance n r z f =
        verify_complete secret _ payload now tolerance
          (n, unix signed_at, sign_fields secret payload signed_at r z, f)

    -- For a MAC that returns bytes and is never empty: if a signature made for one payload is
    -- accepted for another one, the two authenticated texts have the same MAC.
    pub verify-sign-payload :
        ((key text : Bytes) → All IsByte (hmac key text))
        → (secret payload other : Bytes) (signed_at now tolerance : ℤ) → InInt64 (unix signed_at)
        → is_zero (unix signed_at) ≡ false
        → verify_webhook_signature hmac secret
            (sign_webhook_payload hmac secret payload signed_at)
            other
            now
            tolerance
          ≡ ok tt
        → hmac secret (signed_text (unix signed_at) payload)
          ≡ hmac secret (signed_text (unix signed_at) other)
    verify-sign-payload bytes secret payload other signed_at now tolerance r z h =
        let (_, timestamp, p, _) = verify_sound secret _ other now tolerance h in
        let fields : ◌≡◌ {A = Result SignatureError (ℤ × Bytes)}
            (ok (unix signed_at, mac_code secret payload (unix signed_at)))
            (ok (timestamp, mac_code secret other timestamp)) =
          sym (sign_fields secret payload signed_at r z) ∙ p in
        let when : unix signed_at ≡ timestamp = cc in
        let code : mac_code secret payload (unix signed_at) ≡ mac_code secret other timestamp =
          cc in
        hex_encode-injective _ _ (bytes _ _) (bytes _ _)
          (code ∙ ap (mac_code secret other) (sym when))

  verify_unreadable :
      (secret signature payload : Bytes) (now tolerance : ℤ) (e : SignatureError)
      → parse_signature signature ≡ err e
      → verify_webhook_signature hmac secret signature payload now tolerance ≢ ok tt
  unfolding verify_webhook_signature
  verify_unreadable [] signature payload now tolerance e p = cc
  verify_unreadable (c ∷ s) signature payload now tolerance e p = rw p (cc)

  sign_epoch :
      (secret payload : Bytes) (nanos : ℕ)
      → nanos < second
      → parse_signature (sign_webhook_payload hmac secret payload (pos nanos)) ≡ err fields_missing
  unfolding sign_webhook_payload
  sign_epoch secret payload nanos h =
      rw (unix_epoch nanos h) (parse_signature_epoch _ (hex_encode-Lacks_comma _))

  -- A signature made within the first second of the epoch is refused whatever the key, the payload
  -- and the tolerance.
  verify-sign-epoch :
      (secret payload other key : Bytes) (nanos : ℕ) (now tolerance : ℤ)
      → nanos < second
      → verify_webhook_signature hmac key
          (sign_webhook_payload hmac secret payload (pos nanos))
          other
          now
          tolerance
        ≢ ok tt
  verify-sign-epoch secret payload other key nanos now tolerance h =
      verify_unreadable key _ other now tolerance _ (sign_epoch secret payload nanos h)
