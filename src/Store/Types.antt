-- ===== src/Store/Types.antt =====
-- internal/store/types.go. A time is a number of nanoseconds, `none` stands for a nil pointer.
-- Where a column of the migrations may be NULL and the Go field may not, the row is a type of its
-- own with an `Option`.
use socialpublish.Prelude.{ℕ, String, Bool, Option, List}
use socialpublish.Store.Json.{Json}

abbrev pub Time : Type 0
Time = ℕ

pub record Workspace : Type 0 where
  pub id : String
  pub name : String
  pub slug : String
  pub plan : String
  pub created_at : Time
  pub updated_at : Time

pub record ApiKey : Type 0 where
  pub id : String
  pub workspace_id : String
  pub key_hash : String
  pub key_prefix : String
  pub name : String
  pub last_used_at : Option Time
  pub expires_at : Option Time
  pub created_at : Time

pub record Account : Type 0 where
  pub id : String
  pub workspace_id : String
  pub platform : String
  pub platform_user_id : String
  pub display_name : String
  pub avatar_url : String
  pub token_id : String
  pub token_expires_at : Option Time
  pub token_healthy : Bool
  pub created_at : Time
  pub updated_at : Time

-- A row of media; `Media` is the struct that it is read into.
pub record MediaRow : Type 0 where
  pub id : String
  pub workspace_id : String
  pub status : String
  pub media_type : String
  pub original_key : String
  pub mime_type : String
  pub size_bytes : ℕ
  pub duration_ms : Option ℕ
  pub formats : Json
  pub thumbnail_key : Option String
  pub error_message : Option String
  pub created_at : Time
  pub updated_at : Time

pub record Media : Type 0 where
  pub id : String
  pub workspace_id : String
  pub status : String
  pub media_type : String
  pub original_key : String
  pub mime_type : String
  pub size_bytes : ℕ
  pub duration_ms : Option ℕ
  pub formats : Json
  pub thumbnail_key : String
  pub error_message : String
  pub created_at : Time
  pub updated_at : Time

pub record Post : Type 0 where
  pub id : String
  pub workspace_id : String
  pub status : String
  pub media_ids : List String
  pub scheduled_at : Option Time
  pub published_at : Option Time
  pub metadata : Json
  pub created_at : Time
  pub updated_at : Time

-- A row of post_targets; `PostTarget` is the struct that it is read into.
pub record TargetRow : Type 0 where
  pub id : String
  pub post_id : String
  pub account_id : String
  pub platform : String
  pub format : String
  pub config : Json
  pub status : String
  pub platform_post_id : Option String
  pub permalink : Option String
  pub failure_reason : Option String
  pub attempt_count : ℕ
  pub last_attempted_at : Option Time
  pub published_at : Option Time

pub record PostTarget : Type 0 where
  pub id : String
  pub post_id : String
  pub account_id : String
  pub platform : String
  pub format : String
  pub config : Json
  pub status : String
  pub platform_post_id : String
  pub permalink : String
  pub failure_reason : String
  pub attempt_count : ℕ
  pub last_attempted_at : Option Time
  pub published_at : Option Time

pub record AnalyticsSnapshot : Type 0 where
  pub id : String
  pub workspace_id : String
  pub account_id : String
  pub post_id : String
  pub platform_post_id : String
  pub metrics : Json
  pub collected_at : Time

pub record WebhookEndpoint : Type 0 where
  pub id : String
  pub workspace_id : String
  pub url : String
  pub secret_hash : String
  pub secret_enc : String
  pub events : List String
  pub enabled : Bool
  pub created_at : Time

pub record WebhookDeliveryParams : Type 0 where
  pub workspace_id : String
  pub event_type : String
  pub payload : Json

pub record WebhookDelivery : Type 0 where
  pub id : String
  pub endpoint_id : String
  pub event_type : String
  pub payload : Json
  pub response_status : Option ℕ
  pub attempt_count : ℕ
  pub delivered_at : Option Time
  pub next_retry_at : Option Time

-- A row of encrypted_tokens.
pub record TokenRow : Type 0 where
  pub id : String
  pub ciphertext : List ℕ
