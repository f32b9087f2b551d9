-- ===== src/Webhook/Router.antt =====
-- sdk/webhook.go: WebhookRouter. HMAC-SHA256, the JSON decoder and the registered handlers, which
-- the caller supplies, are parameters; `none` stands for a Go error of theirs.
pub mod Laws
use socialpublish.Prelude.{
  ℕ, ◌*◌, Bool, true, false, Option, none, some, List, [], ◌∷◌, Bytes, if◌then◌else◌, bytes_eq,
  is_empty, ℤ, pos, Result, ok, err,
}
use socialpublish.Webhook.Signature.{SignatureError, second, verify_webhook_signature}

pub record WebhookEvent : Type 0 where
  pub id : Bytes
  pub event_type : Bytes
  pub created_at : ℤ
  pub raw_data : Bytes

-- What the router reads of a request; `none` is a body that cannot be read.
pub record WebhookRequest : Type 0 where
  pub body : Option Bytes
  pub signature_header : Bytes
  pub event_header : Bytes

-- `Handler` names the registered handlers.
pub record WebhookRouter (Handler : Type 0) : Type 0 where
  pub secret : Bytes
  pub clock_tolerance : ℤ
  pub handlers : List (Bytes × Handler)

pub data ParseError : Type 0 where
  unreadable_body undecodable type_required : ParseError
  bad_signature : SignatureError → ParseError

abbrev pub default_clock_tolerance : ℤ
default_clock_tolerance = pos (5 * 60 * second)

-- A map from event types: a second registration replaces the first.
unfoldable pub set_handler {ℓ} : {H : Type ℓ} → Bytes → H → List (Bytes × H) → List (Bytes × H)
set_handler k h [] = (k, h) ∷ []
set_handler k h ((j, g) ∷ hs) =
    let rest = set_handler k h hs in if bytes_eq j k then (k, h) ∷ hs else (j, g) ∷ rest

unfoldable pub get_handler {ℓ} : {H : Type ℓ} → Bytes → List (Bytes × H) → Option H
get_handler k [] = none
get_handler k ((j, g) ∷ hs) = let rest = get_handler k hs in if bytes_eq j k then some g else rest

-- What ServeHTTP does: the status it writes, and the handler that it called with the event.
pub record Served (H : Type 0) : Type 0 where
  pub status : ℕ
  pub called : Option (H × WebhookEvent)

-- The type of the event is that of the body, else that of the header.
with_type : Bytes → WebhookEvent → Result ParseError WebhookEvent
with_type header event =
    if is_empty event.event_type
    then (if is_empty header then err type_required else ok (record event { event_type = header }))
    else ok event

parse_body : (Bytes → Option WebhookEvent) → WebhookRequest → Bytes → Result ParseError WebhookEvent
parse_body decode req body = elim (decode body) [
  | none ↦ err undecodable
  | some event ↦ with_type req.event_header event
]

module _ {H : Type 0} where
  unfoldable pub new_webhook_router : Bytes → WebhookRouter H
  new_webhook_router secret = record {
    secret = secret;
    clock_tolerance = default_clock_tolerance;
    handlers = [];
  }

  unfoldable pub with_clock_tolerance : ℤ → WebhookRouter H → WebhookRouter H
  with_clock_tolerance d r = record r { clock_tolerance = d }

  unfoldable pub handle : Bytes → H → WebhookRouter H → WebhookRouter H
  handle event_type handler r = record r { handlers = set_handler event_type handler r.handlers }

  module _ (hmac : Bytes → Bytes → Bytes) (decode : Bytes → Option WebhookEvent) where
    unfoldable pub parse : WebhookRouter H → WebhookRequest → ℤ → Result ParseError WebhookEvent
    unfolding with_type parse_body
    parse r req now = elim req.body [
      | none ↦ err unreadable_body
      | some body ↦
          elim (verify_webhook_signature hmac r.secret req.signature_header body now
            r.clock_tolerance) [ err e ↦ err (bad_signature e) | ok _ ↦ parse_body decode req body ]
    ]

    -- `succeeds` tells whether a handler returns a nil error.
    unfoldable pub serve_http :
        (succeeds : H → WebhookEvent → Bool) → WebhookRouter H → WebhookRequest → ℤ → Served H
    serve_http succeeds r req now = elim (parse r req now) [
      | err _ ↦ record { status = 400; called = none }
      | ok event ↦ elim (get_handler event.event_type r.handlers) [
        | none ↦ record { status = 204; called = none }
        | some handler ↦ record {
          status = if succeeds handler event then 204 else 500;
          called = some (handler, event);
        }
      ]
    ]
