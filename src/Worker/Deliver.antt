-- ===== src/Worker/Deliver.antt =====
-- internal/worker/webhook.go: webhookDeliverHandler.ProcessTask. The JSON encoder, http.NewRequest
-- and http.Client are parameters; the signature is that of sdk/webhook.go.
pub mod Laws
pub mod Delivered
pub mod Listed
pub mod Settled
pub mod Liveness
use Prim.Native.String
use socialpublish.Prelude.{
  ℕ, String, Bool, true, false, not, ◌||◌, Option, none, some, List, [], ◌∷◌, Bytes, if◌then◌else◌,
  ltb, leb, Result, ok, err, pos,
}
use socialpublish.Store.Json.{Json}
use socialpublish.Store.Types.{Time, WebhookEndpoint, WebhookDelivery}
use socialpublish.GoText.Print.{itoa}
use socialpublish.Store.Database.{
  named, World, Env, Error, failure, plain, wrap, skip, S, ◌>>=◌, ◌>>◌, pure, on_result, or_return,
  outside,
}
use socialpublish.Store.Tokens.{Crypto, decrypt}
use socialpublish.Store.Webhooks.{list_endpoints, list_pending_deliveries, mark_delivered}
use socialpublish.Webhook.Signature.{sign_webhook_payload}

-- The event that is sent; its data is the stored payload.
pub record Event : Type 0 where
  pub id : String
  pub event_type : String
  pub created_at : Time
  pub payload : Json

pub record HttpRequest : Type 0 where
  pub url : String
  pub body : Bytes
  pub signature : Bytes
  pub event_type : String

-- `builds` says whether a request can be built for a URL, `send` gives the status of the response
-- to the n-th call, or none if there is no response.
pub record Client : Type 0 where
  pub marshal : Event → Bytes
  pub hmac : Bytes → Bytes → Bytes
  pub builds : String → Bool
  pub send : ℕ → HttpRequest → Option ℕ

abbrev pub is_success : ℕ → Bool
is_success status = not (ltb status 200 || leb 300 status)

-- fmt.Errorf("endpoint %s returned status %d", ep.URL, status)
abbrev returned_status : String → ℕ → Error
returned_status url status =
    plain (named "endpoint " url (String.◌++◌ " returned status " (itoa status)))

-- `return lastErr`
abbrev returned : Option Error → Result Error (Unit {0})
returned none = ok tt
returned (some e) = err e

module _ (env : Env) (client : Client) where
  -- The request of a delivery; `n` tells the time.
  unfoldable pub make_request : WebhookEndpoint → Bytes → WebhookDelivery → ℕ → HttpRequest
  make_request ep secret d n =
      let body = client.marshal (record {
        id = d.id;
        event_type = d.event_type;
        created_at = env.now n;
        payload = d.payload;
      }) in
      record {
        url = ep.url;
        body = body;
        signature = sign_webhook_payload client.hmac secret body (pos (env.now n));
        event_type = d.event_type;
      }

  -- What follows the attempt to send a delivery, with the error so far.
  unfoldable pub after_send :
      WebhookEndpoint → WebhookDelivery → Option Error → Option ℕ → S (Option Error)
  after_send ep d last none = pure (some failure)
  after_send ep d last (some status) = do
    mark_delivered env d.id status
    pure (if is_success status then last else some (returned_status ep.url status))

  -- One round of the inner loop.
  unfoldable pub deliver_one :
      WebhookEndpoint → Bytes → WebhookDelivery → Option Error → S (Option Error)
  unfolding after_send
  deliver_one ep secret d last = if not (client.builds ep.url) then pure (some failure) else do
    response ← outside λ n. client.send n (make_request ep secret d n)
    after_send ep d last response

  unfoldable pub deliver_each :
      WebhookEndpoint → Bytes → List WebhookDelivery → Option Error → S (Option Error)
  deliver_each ep secret [] last = pure last
  deliver_each ep secret (d ∷ ds) last = do
    next ← deliver_one ep secret d last
    deliver_each ep secret ds next

  module _ (crypto : Crypto) (key : Bytes) where
    unfoldable pub deliver_pending :
        WebhookEndpoint → List WebhookDelivery → Option Error → S (Option Error)
    unfolding deliver_each
    deliver_pending ep [] last = pure last
    deliver_pending ep (d ∷ ds) last = do
      secret ← decrypt env crypto key ep.secret_enc
      on_result secret (λ e. pure last) λ s. deliver_each ep s (d ∷ ds) last

    -- One round of the outer loop: an endpoint that is off, or whose deliveries or secret cannot be
    -- read, is passed over.
    unfoldable pub serve_endpoint : WebhookEndpoint → Option Error → S (Option Error)
    unfolding deliver_pending
    serve_endpoint ep last = if not ep.enabled then pure last else do
      pending ← list_pending_deliveries env ep.id (pos 50)
      on_result pending (λ e. pure last) λ ds. deliver_pending ep ds last

    unfoldable pub serve_endpoints : List WebhookEndpoint → Option Error → S (Option Error)
    serve_endpoints [] last = pure last
    serve_endpoints (ep ∷ eps) last = do next ← serve_endpoint ep last; serve_endpoints eps next

    -- The payload is the identifier of a workspace.
    unfoldable pub process_deliver : Option String → S (Result Error (Unit {0}))
    unfolding serve_endpoints
    process_deliver none = pure (err (skip "unmarshal webhook payload"))
    process_deliver (some workspace_id) = do
      listed ← list_endpoints env workspace_id
      or_return listed (wrap "list endpoints")
          λ endpoints. do last ← serve_endpoints endpoints none; pure (returned last)
