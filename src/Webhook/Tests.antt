-- ===== src/Webhook/Tests.antt =====
-- Examples for sdk/webhook.go.
use socialpublish.Prelude.{
  ℕ, ◌*◌, Bool, true, ◌≡◌, ◌≢◌, ◌⊎◌, ◌↔◌, inr, refl, Option, none, some, List, [], ◌∷◌, Bytes,
  codes, bytes_eq, if◌then◌else◌, ℤ, pos, ok, arith,
}
use socialpublish.Samples.{sample_hmac, sample_hmac-ne-nil, sample_hmac-IsByte}
use socialpublish.Webhook.Signature.{
  second, unix, signed_text, sign_webhook_payload, verify_webhook_signature,
}
use socialpublish.Webhook.Signature.Verified.{
  IsGenuine, verify_iff, verify-sign, verify-sign-payload,
}
use socialpublish.Webhook.Router.{
  WebhookEvent, WebhookRequest, WebhookRouter, get_handler, parse, serve_http,
}
use socialpublish.Webhook.Router.Laws.{IsAccepted, serve_http_called, serve_http_rejected}

abbrev key : Bytes
key = codes "key"

abbrev body : Bytes
body = codes "{}"

abbrev signed_at : ℤ
signed_at = pos (7 * second)

abbrev signature : Bytes
signature = sign_webhook_payload sample_hmac key body signed_at

verify_iff_example :
    (verify_webhook_signature sample_hmac key signature body signed_at (pos second) ≡ ok tt)
    ↔ IsGenuine sample_hmac key signature body signed_at (pos second)
verify_iff_example =
    verify_iff sample_hmac sample_hmac-ne-nil key signature body signed_at (pos second)

key-ne-nil : key ≢ []
key-ne-nil = cc

verify-sign_example :
    verify_webhook_signature sample_hmac key signature body signed_at (pos second) ≡ ok tt
unfolding unix
verify-sign_example =
    verify-sign sample_hmac sample_hmac-ne-nil key body signed_at signed_at (pos second) key-ne-nil
      (omega arith) refl (inr (omega arith))

verify-sign-payload_example :
    sample_hmac key (signed_text (unix signed_at) body)
    ≡ sample_hmac key (signed_text (unix signed_at) body)
unfolding unix
verify-sign-payload_example =
    verify-sign-payload sample_hmac sample_hmac-ne-nil sample_hmac-IsByte key body body signed_at
      signed_at (pos second) (omega arith) refl
      (verify-sign sample_hmac sample_hmac-ne-nil key body signed_at signed_at (pos second)
        key-ne-nil (omega arith) refl (inr (omega arith)))

-- A router with one handler, number 4, for the event "a"; every body decodes to such an event.
abbrev router : WebhookRouter ℕ
router = record {
  secret = key;
  clock_tolerance = pos (5 * 60 * second);
  handlers = (codes "a", 4) ∷ [];
}

abbrev event : WebhookEvent
event = record { id = codes "1"; event_type = codes "a"; created_at = pos 0; raw_data = [] }

abbrev decode : Bytes → Option WebhookEvent
decode b = some event

abbrev succeeds : ℕ → WebhookEvent → Bool
succeeds handler e = true

abbrev request : Bytes → WebhookRequest
request header = record { body = some body; signature_header = header; event_header = [] }

abbrev others : List (Bytes × ℕ)
others = (codes "b", 5) ∷ []

accepted :
    verify_webhook_signature sample_hmac key signature body signed_at (pos (5 * 60 * second))
    ≡ ok tt
unfolding unix
accepted =
    verify-sign sample_hmac sample_hmac-ne-nil key body signed_at signed_at (pos (5 * 60 * second))
      key-ne-nil (omega arith) refl (inr (omega arith))

called_event :
    (serve_http sample_hmac decode succeeds router (request signature) signed_at).called
    ≡ some (4, event)
unfolding serve_http parse get_handler bytes_eq
called_event = rw (serve_http, parse, accepted) refl

serve_http_called_example :
    (b : Bytes) × ((request signature).body ≡ some b)
    × (verify_webhook_signature sample_hmac router.secret signature b signed_at
          router.clock_tolerance
        ≡ ok tt)
    × (get_handler event.event_type router.handlers ≡ some 4)
    × ((serve_http sample_hmac decode succeeds router (request signature) signed_at).status
        ≡ (if succeeds 4 event then 204 else 500))
serve_http_called_example =
    serve_http_called sample_hmac decode succeeds router (request signature) signed_at 4 event
      called_event

serve_http_rejected_example :
    (IsAccepted sample_hmac decode succeeds router (request []) signed_at
      × ((serve_http sample_hmac decode succeeds router (request []) signed_at).status ≢ 400))
    ⊎ ((¬ IsAccepted sample_hmac decode succeeds router (request []) signed_at)
        × ((serve_http sample_hmac decode succeeds router (request []) signed_at).status ≡ 400)
        × ((serve_http sample_hmac decode succeeds router (request []) signed_at).called ≡ none))
serve_http_rejected_example =
    serve_http_rejected sample_hmac decode succeeds router (request []) signed_at
