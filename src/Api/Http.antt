-- ===== src/Api/Http.antt =====
-- internal/api/handler/common.go: the responses. A body is a value of its own type for each shape
-- that the handlers write.
use socialpublish.Prelude.{ℕ, String, Bool, Bytes, Option, none, some, List, Result, ok, err}
use socialpublish.Store.Types.{
  Time, Account, Media, Post, PostTarget, WebhookEndpoint, AnalyticsSnapshot,
}
use socialpublish.Store.Database.{Env, Error, S, pure, error_text}

pub data Body : Type 0 where
  empty : Body
  error_body : (code message : String) → Body
  status_body : (status : String) → Body
  publishing_body : (status post_id : String) → Body
  post_body : Option Post → Body
  post_page : List Post → (next_cursor : String) → Body
  post_detail : Post → List PostTarget → Body
  calendar_body : List Post → (from to : Time) → Body
  queue_body : List Post → Body
  next_available_body : Time → Body
  account_body : Account → Body
  account_list : List Account → Body
  account_status : (account_id : String) (token_healthy : Bool) (expires_at : Option Time) → Body
  media_body : Media → Body
  media_page : List Media → (next_cursor : String) → Body
  upload_body : (media_id upload_url : String) (headers : List (String × String)) → Body
  webhook_created : WebhookEndpoint → (secret : Bytes) → Body
  webhook_list : List WebhookEndpoint → Body
  analytics_body : AnalyticsSnapshot → Body

pub record Response : Type 0 where
  pub status : ℕ
  pub body : Body

abbrev pub write_json : ℕ → Body → S Response
write_json status body = pure (record { status = status; body = body })

abbrev pub write_error : ℕ → (code message : String) → S Response
write_error status code message = write_json status (error_body code message)

abbrev pub internal_error : Env → Error → S Response
internal_error env e = write_error 500 "internal_error" (error_text env e)

-- Health, and Readyz with the outcome of its check, if there is one.
unfoldable pub health : S Response
health = write_json 200 (status_body "ok")

unfoldable pub readyz : Option (Result Error (Unit {0})) → S Response
readyz none = write_json 200 (status_body "ready")
readyz (some (ok _)) = write_json 200 (status_body "ready")
readyz (some (err e)) = write_json 503 (status_body "not_ready")
