-- ===== src/Api/Webhook.antt =====
-- internal/api/handler/webhook.go. A secret is the hex code of random bytes; its stored hash is the
-- parameter `sha256_hex`.
use socialpublish.Prelude.{String, Bool, Option, none, some, List, Bytes, str_eq, if◌then◌else◌}
use socialpublish.GoText.Hex.{hex_encode}
use socialpublish.Store.Json.{text, object, field, end}
use socialpublish.Store.Database.{Env, webhook_task, S, ◌>>=◌, ◌>>◌, on_result, outside}
use socialpublish.Store.Tokens.{Crypto, save}
use socialpublish.Store.Webhooks.{
  create_endpoint, list_endpoints, get_endpoint, delete_endpoint, enqueue_delivery,
}
use socialpublish.Worker.Publish.{enqueue}
use socialpublish.Api.Http.{
  Response, empty, webhook_created, webhook_list, write_json, write_error, internal_error,
}

pub record WebhookCreateRequest : Type 0 where
  pub url : String
  pub events : List String
  pub enabled : Bool

module _ (env : Env) where
  module _ (crypto : Crypto) (key : Bytes) (sha256_hex : Bytes → String) where
    create_with_secret : (workspace_id : String) → WebhookCreateRequest → Option Bytes → S Response
    create_with_secret workspace_id req none =
        write_error 500 "internal_error" "failed to generate secret"
    create_with_secret workspace_id req (some secret_bytes) = do
      let secret = hex_encode secret_bytes
      saved ← save env crypto key secret
      on_result saved (λ e. write_error 500 "internal_error" "failed to save secret")
          λ token_id. do
            created ←
                create_endpoint env workspace_id req.url (sha256_hex secret) token_id req.events
                  req.enabled
            on_result created (internal_error env) λ ep. write_json 201 (webhook_created ep secret)

    unfoldable pub create : (workspace_id : String) → Option WebhookCreateRequest → S Response
    unfolding create_with_secret
    create workspace_id none = write_error 400 "validation_error" "invalid request body"
    create workspace_id (some req) =
        if str_eq req.url "" then write_error 400 "validation_error" "url is required" else do
          secret_bytes ← outside λ n. crypto.random n 32
          create_with_secret workspace_id req secret_bytes

  unfoldable pub list : (workspace_id : String) → S Response
  list workspace_id = do
    listed ← list_endpoints env workspace_id
    on_result listed (internal_error env) λ endpoints. write_json 200 (webhook_list endpoints)

  unfoldable pub delete : (endpoint_id : String) → S Response
  delete endpoint_id = do
    deleted ← delete_endpoint env endpoint_id
    on_result deleted (λ e. write_error 404 "not_found" "webhook not found")
        λ _. write_json 204 empty

  -- `timestamp` is the time of the request in RFC 3339.
  unfoldable pub test : (workspace_id endpoint_id timestamp : String) → S Response
  test workspace_id endpoint_id timestamp = do
    found ← get_endpoint env endpoint_id
    on_result found (λ e. write_error 404 "not_found" "webhook not found")
        λ _. do
          stored ← enqueue_delivery env (record {
            workspace_id = workspace_id;
            event_type = "webhook.test";
            payload = object (
                field "message" (text "test webhook delivery")
                  (field "timestamp" (text timestamp) end));
          })
          on_result stored (internal_error env) λ _. do
            enqueue env "webhook:deliver" (webhook_task workspace_id)
            write_json 202 empty
