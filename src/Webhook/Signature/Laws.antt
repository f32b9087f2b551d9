-- ===== src/Webhook/Signature/Laws.antt =====
-- sdk/webhook.go: what a verified signature says.
use socialpublish.Prelude.{
  ℕ, suc, ◌≡◌, ◌≢◌, refl, ap, subst, Option-cases, ◌∙◌, inl, inr, false, Option, none, some, List,
  [], ◌∷◌, ◌++◌, arith, Bytes, codes, bytes_eq, ℤ, pos, negsuc, Result, ok, err, ◌>>=◌, >>=-eq-ok,
  All, Bool-cases,
}
use socialpublish.GoText.Decimal.{
  format_int, format_uint-IsDigit, parse_int, InInt64, IsDigit, parse_int-format_int,
  parse_int-InInt64,
}
use socialpublish.GoText.Split.{split, cut, Lacks, split-append, split-Lacks}
use socialpublish.GoText.Hex.{hex_encode, hex_encode-Lacks_comma, hex_encode-ne-nil}
use socialpublish.Webhook.Signature.{
  SignatureError, fields_missing, unix, from_unix, is_zero, signed_text, read_timestamp, read_field,
  read_parts, check_fields, parse_signature, sign_webhook_payload,
}

pub unix-from_unix : (z : ℤ) → unix (from_unix z) ≡ z
unfolding unix
unix-from_unix (pos n) = ground arith
unix-from_unix (negsuc n) = ground arith

Digits-Lacks : (s : Bytes) → All IsDigit s → Lacks b',' s
Digits-Lacks [] h = tt
Digits-Lacks (c ∷ s) ((lo, hi), h) = (omega arith, Digits-Lacks s h)

format_int-Lacks : (z : ℤ) → Lacks b',' (format_int z)
unfolding format_int
format_int-Lacks (pos n) = Digits-Lacks _ (format_uint-IsDigit n)
format_int-Lacks (negsuc n) = (omega arith, Digits-Lacks _ (format_uint-IsDigit (suc n)))

abbrev pub signature_text : ℤ → Bytes → Bytes
signature_text timestamp sig = codes "t=" ++ (format_int timestamp ++ (codes ",v1=" ++ sig))

split-signature_text :
    (timestamp : ℤ) (sig : Bytes)
    → Lacks b',' sig
    → split b',' (signature_text timestamp sig)
      ≡ (codes "t=" ++ format_int timestamp) ∷ (codes "v1=" ++ sig) ∷ []
split-signature_text timestamp sig l =
    split-append b',' (codes "t=" ++ format_int timestamp) (codes "v1=" ++ sig)
      (omega arith, (omega arith, format_int-Lacks timestamp))
    ∙ ap (λ parts. (codes "t=" ++ format_int timestamp) ∷ parts)
        (split-Lacks b',' (codes "v1=" ++ sig) (omega arith, (omega arith, (omega arith, l))))

-- The two fields of a signature text are read back.
pub parse_signature_fields :
    (timestamp : ℤ) (sig : Bytes)
    → InInt64 timestamp
    → is_zero timestamp ≡ false
    → sig ≢ []
    → Lacks b',' sig
    → parse_signature (signature_text timestamp sig) ≡ ok (timestamp, sig)
unfolding parse_signature cut bytes_eq
parse_signature_fields timestamp [] r z n l = absurd (n refl)
parse_signature_fields timestamp (c ∷ sig) r z n l =
    rw (split-signature_text timestamp (c ∷ sig) l, parse_int-format_int timestamp r, z)

-- A signature made at the epoch has the timestamp that stands for a missing one.
pub parse_signature_epoch :
    (sig : Bytes)
    → Lacks b',' sig
    → parse_signature (signature_text (pos 0) sig) ≡ err fields_missing
unfolding parse_signature cut bytes_eq
parse_signature_epoch sig l =
    rw (split-signature_text (pos 0) sig l, parse_int-format_int (pos 0) (omega arith))

InInt64-transport :
    (a b : ℤ × Bytes)
    → ◌≡◌ {A = Result SignatureError (ℤ × Bytes)} (ok a) (ok b)
    → InInt64 a.0
    → InInt64 b.0
InInt64-transport a b e r = let same : a ≡ b = cc in subst (λ (x : ℤ × Bytes). InInt64 x.0) same r

read_timestamp-InInt64 :
    (value sig : Bytes) (next : ℤ × Bytes)
    → read_timestamp (parse_int value) sig ≡ ok next
    → InInt64 next.0
unfolding read_timestamp
read_timestamp-InInt64 value sig next h = elim (Option-cases (parse_int value)) [
  | inl e ↦ absurd (cc)
  | inr (z, e) ↦
      InInt64-transport (z, sig) next (rw (e, read_timestamp) at h) (parse_int-InInt64 value z e)
]

read_field-InInt64 :
    (field : Option (Bytes × Bytes)) (found next : ℤ × Bytes)
    → InInt64 found.0
    → read_field field found ≡ ok next
    → InInt64 next.0
unfolding read_field
read_field-InInt64 none found next r h = InInt64-transport found next h r
read_field-InInt64 (some (key, value)) (timestamp, sig) next r h =
    elim (Bool-cases (bytes_eq key (codes "t"))) [
      | inl e ↦ read_timestamp-InInt64 value sig next (rw e at h)
      | inr n ↦ elim (Bool-cases (bytes_eq key (codes "v1"))) [
        | inl e ↦ InInt64-transport (timestamp, value) next (rw (n, e) at h) r
        | inr m ↦ InInt64-transport (timestamp, sig) next (rw (n, m) at h) r
      ]
    ]

read_parts-InInt64 :
    (parts : List Bytes) (found last : ℤ × Bytes)
    → InInt64 found.0
    → read_parts parts found ≡ ok last
    → InInt64 last.0
unfolding read_parts
read_parts-InInt64 [] found last r h = InInt64-transport found last h r
read_parts-InInt64 (part ∷ parts) found last r h =
    let (next, here, later) = >>=-eq-ok (read_field (cut b'=' part) found) (read_parts parts) h in
    read_parts-InInt64 parts next last (read_field-InInt64 (cut b'=' part) found next r here) later

check_fields_sound :
    (found last : ℤ × Bytes)
    → check_fields found ≡ ok last
    → (found ≡ last) × (is_zero last.0 ≡ false) × (last.1 ≢ [])
unfolding check_fields
check_fields_sound (pos n, []) (t, s) h = ground arith
check_fields_sound (pos n, c ∷ sig) (t, s) h = ground arith
check_fields_sound (negsuc n, []) (t, s) h = ground arith
check_fields_sound (negsuc n, c ∷ sig) (t, s) h = ground arith

parse_signature_cons :
    (c : ℕ) (s : Bytes) {b : ℤ × Bytes}
    → parse_signature (c ∷ s) ≡ ok b
    → (read_parts (split b',' (c ∷ s)) (pos 0, []) >>= check_fields) ≡ ok b
unfolding parse_signature
parse_signature_cons c s h = h

-- What is read from a signature is a timestamp in range that is not zero, and a nonempty signature.
pub parse_signature_sound :
    (signature sig : Bytes) (timestamp : ℤ)
    → parse_signature signature ≡ ok (timestamp, sig)
    → InInt64 timestamp × (is_zero timestamp ≡ false) × (sig ≢ [])
parse_signature_sound [] sig timestamp h = unfold parse_signature in cc
parse_signature_sound (c ∷ s) sig timestamp h =
    let (found, parts, fields) =
      >>=-eq-ok (read_parts (split b',' (c ∷ s)) (pos 0, [])) check_fields {b = (timestamp, sig)}
        (parse_signature_cons c s h) in
    let (same, z, n) = check_fields_sound found (timestamp, sig) fields in
    (
      InInt64-transport found (timestamp, sig) (ap ok same)
          (read_parts-InInt64 _ (pos 0, []) found (omega arith) parts),
      z,
      n,
    )

module _ (hmac : Bytes → Bytes → Bytes) where
  -- The only signature text that is accepted for a timestamp is the hex code of its MAC.
  pub verify_expected :
      (secret payload : Bytes) (timestamp : ℤ)
      → InInt64 timestamp
      → is_zero timestamp ≡ false
      → hmac secret (signed_text timestamp payload) ≢ []
      → parse_signature (sign_webhook_payload hmac secret payload (from_unix timestamp))
        ≡ ok (timestamp, hex_encode (hmac secret (signed_text timestamp payload)))
  unfolding sign_webhook_payload
  verify_expected secret payload timestamp r z n = rw (unix-from_unix timestamp) (
      parse_signature_fields timestamp (hex_encode (hmac secret (signed_text timestamp payload))) r
        z (hex_encode-ne-nil _ n) (hex_encode-Lacks_comma _))
