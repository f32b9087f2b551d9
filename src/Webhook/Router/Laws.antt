-- ===== src/Webhook/Router/Laws.antt =====
-- sdk/webhook.go: when the router calls a handler, and what it answers.
use socialpublish.Prelude.{
  Bool, false, Option, none, some, List, [], ◌∷◌, Bytes, if◌then◌else◌, bytes_eq, bytes_eq_iff, ℤ,
  ok, Result-cases, is_empty, ◌&&◌, Bool-cases, ◌≡◌, ◌≢◌, ◌⊎◌, inl, inr, refl, arith, Option-cases,
  sym, ◌∙◌,
}
use socialpublish.Webhook.Signature.{verify_webhook_signature}
use socialpublish.Webhook.Router.{
  WebhookEvent, WebhookRequest, WebhookRouter, with_type, parse_body, parse, serve_http,
  set_handler, get_handler,
}

-- Behind a registration the handler of that event type is the new one, and that of every other type
-- is what it was.
get_handler-set_handler {ℓ} :
    {H : Type ℓ} (k j : Bytes) (h : H) (hs : List (Bytes × H))
    → get_handler j (set_handler k h hs) ≡ (if bytes_eq k j then some h else get_handler j hs)
unfolding get_handler set_handler
get_handler-set_handler k j h [] = refl
get_handler-set_handler k j h ((i, g) ∷ hs) =
    ground (
      arith,
      bytes_eq_iff k j,
      bytes_eq_iff i k,
      bytes_eq_iff i j,
      get_handler-set_handler k j h hs,
    )

module _ {H : Type 0} (hmac : Bytes → Bytes → Bytes) (decode : Bytes → Option WebhookEvent)
    (succeeds : H → WebhookEvent → Bool) (r : WebhookRouter H) (req : WebhookRequest)
    (now : ℤ) where
  parse_sound :
      (event : WebhookEvent)
      → parse hmac decode r req now ≡ ok event
      → (body : Bytes) × (req.body ≡ some body)
        × (verify_webhook_signature hmac r.secret req.signature_header body now r.clock_tolerance
            ≡ ok tt)
  unfolding parse
  parse_sound event h = elim (Option-cases req.body) [
    | inl e ↦ absurd (ground arith)
    | inr (body, e) ↦
        elim (Result-cases (
          verify_webhook_signature hmac r.secret req.signature_header body now r.clock_tolerance)) [
            | inl (_, v) ↦ (body, e, v)
            | inr (_, v) ↦ absurd (ground arith)
          ]
  ]

  -- If a handler is called with an event, the body of the request could be read, its signature was
  -- accepted under the router's secret and tolerance at that time, the handler is the one
  -- registered for the event's type, and the answer is 204 or 500 by the handler's result.
  pub serve_http_called :
      (handler : H) (event : WebhookEvent)
      → (serve_http hmac decode succeeds r req now).called ≡ some (handler, event)
      → (body : Bytes) × (req.body ≡ some body)
        × (verify_webhook_signature hmac r.secret req.signature_header body now r.clock_tolerance
            ≡ ok tt)
        × (get_handler event.event_type r.handlers ≡ some handler)
        × ((serve_http hmac decode succeeds r req now).status
            ≡ (if succeeds handler event then 204 else 500))
  unfolding serve_http
  serve_http_called handler event h = elim (Result-cases (parse hmac decode r req now)) [
    | inl (found, p) ↦ elim (Option-cases (get_handler found.event_type r.handlers)) [
      | inl g ↦ absurd (ground arith)
      | inr (other, g) ↦
          let same : found ≡ event = ground arith in
          let (body, b, v) = parse_sound found p in (body, b, v, ground arith, ground arith)
    ]
    | inr (e, p) ↦ absurd (ground arith)
  ]

  -- The body can be read, is signed under the router's secret within its tolerance, and decodes to an
  -- event whose type stands in the body or in the header.
  abbrev pub IsAccepted : Type 0
  IsAccepted =
      (body : Bytes) × (event : WebhookEvent) × (req.body ≡ some body)
      × (verify_webhook_signature hmac r.secret req.signature_header body now r.clock_tolerance
          ≡ ok tt)
      × (decode body ≡ some event)
      × ((is_empty event.event_type && is_empty req.event_header) ≡ false)

  with_type-ok :
      (header : Bytes) (event found : WebhookEvent)
      → with_type header event ≡ ok found
      → (is_empty event.event_type && is_empty header) ≡ false
  unfolding with_type
  with_type-ok header event found h = ground arith

  with_type-typed :
      (header : Bytes) (event : WebhookEvent)
      → (is_empty event.event_type && is_empty header) ≡ false
      → (found : WebhookEvent) × (with_type header event ≡ ok found)
  unfolding with_type
  with_type-typed header event h = elim (Result-cases (with_type header event)) [
    | inl (found, e) ↦ (found, e)
    | inr (x, e) ↦ absurd (ground arith)
  ]

  parse-body :
      (body : Bytes) (event : WebhookEvent)
      → req.body ≡ some body
      → (verify_webhook_signature hmac r.secret req.signature_header body now r.clock_tolerance
          ≡ ok tt)
      → decode body ≡ some event
      → parse hmac decode r req now ≡ with_type req.event_header event
  unfolding parse parse_body
  parse-body body event b v d = cc

  parse_decodes :
      (body : Bytes) (event : WebhookEvent)
      → req.body ≡ some body
      → decode body ≡ none
      → parse hmac decode r req now ≢ ok event
  unfolding parse parse_body
  parse_decodes body event b d h = ground arith

  parse-IsAccepted : (event : WebhookEvent) → parse hmac decode r req now ≡ ok event → IsAccepted
  parse-IsAccepted event h =
      let (body, b, v) = parse_sound event h in
      elim (Option-cases (decode body)) [
        | inl d ↦ absurd (parse_decodes body event b d h)
        | inr (found, d) ↦ (
          body,
          found,
          b,
          v,
          d,
          with_type-ok req.event_header found event (sym (parse-body body found b v d) ∙ h),
        )
      ]

  IsAccepted-parse : IsAccepted → (event : WebhookEvent) × (parse hmac decode r req now ≡ ok event)
  IsAccepted-parse (body, event, b, v, d, t) =
      let (found, e) = with_type-typed req.event_header event t in
      (found, parse-body body event b v d ∙ e)

  status-parsed :
      (event : WebhookEvent)
      → parse hmac decode r req now ≡ ok event
      → (serve_http hmac decode succeeds r req now).status ≢ 400
  unfolding serve_http
  status-parsed event h = elim (Option-cases (get_handler event.event_type r.handlers)) [
    | inl g ↦ λ x. ground (arith)
    | inr (handler, g) ↦ elim (Bool-cases (succeeds handler event)) [
      | inl s ↦ λ x. ground (arith)
      | inr s ↦ λ x. ground (arith)
    ]
  ]

  -- Either the request is accepted, and its answer is not 400; or it is not, because its body cannot be
  -- read, its signature is not accepted, it does not decode or it has no type, and then it is
  -- answered by 400 and no handler is called.
  pub serve_http_rejected :
      (IsAccepted × ((serve_http hmac decode succeeds r req now).status ≢ 400))
      ⊎ ((¬ IsAccepted)
          × ((serve_http hmac decode succeeds r req now).status ≡ 400)
          × ((serve_http hmac decode succeeds r req now).called ≡ none))
  unfolding serve_http
  serve_http_rejected = elim (Result-cases (parse hmac decode r req now)) [
    | inl (event, h) ↦ inl (parse-IsAccepted event h, status-parsed event h)
    | inr (e, h) ↦ inr (
      λ accepted. let (event, f) = IsAccepted-parse accepted in absurd (ground arith),
      rw (serve_http, h) refl,
      rw (serve_http, h) refl,
    )
  ]
