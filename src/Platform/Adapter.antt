-- ===== src/Platform/Adapter.antt =====
-- internal/platform/adapter.go. An access token is a byte string; a nil pointer is `none`.
use socialpublish.Prelude.{ℕ, String, Option, Bytes, Result, ℤ}
use socialpublish.Store.Json.{Json}
use socialpublish.Store.Types.{Time, PostTarget}
use socialpublish.Store.Database.{Error}

pub record PublishRequest : Type 0 where
  pub account_id : String
  pub access_token : Bytes
  pub media_url : String
  pub target : Option PostTarget

pub record PublishResult : Type 0 where
  pub platform_post_id : String
  pub permalink : String

pub record OAuthToken : Type 0 where
  pub access_token : Bytes
  pub refresh_token : Bytes
  pub expires_at : Time

pub record Metrics : Type 0 where
  pub views : ℤ
  pub likes : ℤ
  pub comments : ℤ
  pub shares : ℤ
  pub reach : ℤ
  pub extra : Json

-- The calls that go to the platform are told which call to the outside they are.
pub record PlatformAdapter : Type 0 where
  pub platform : String
  pub publish : ℕ → Option PublishRequest → Result Error PublishResult
  pub refresh_token : ℕ → Bytes → Result Error OAuthToken
  pub fetch_metrics : ℕ → Bytes → String → Result Error Metrics
  pub validate_target : PostTarget → Result Error (Unit {0})
