-- ===== src/Store/Interfaces.antt =====
-- internal/store/store.go: the interfaces of the stores, and New, which fills them with the stores of
-- internal/store/postgres.go.
use socialpublish.Prelude.{ℕ, String, Bool, Bytes, Option, List, Result, ℤ}
use socialpublish.Store.Json.{Json}
use socialpublish.Store.Types.{
  Time, Workspace, ApiKey, Account, Media, Post, PostTarget, AnalyticsSnapshot, WebhookEndpoint,
  WebhookDelivery, WebhookDeliveryParams,
}
use socialpublish.Store.Database.{Env, Error, S}
use socialpublish.Store.Accounts
use socialpublish.Store.Media
use socialpublish.Store.Posts
use socialpublish.Store.Analytics
use socialpublish.Store.Webhooks
use socialpublish.Store.Tokens
use socialpublish.Store.Tokens.{Crypto}

-- What a method returns: its values or its error.
abbrev Returns : Type 0 → Type 0
Returns A = S (Result Error A)

abbrev Nothing : Type 0
Nothing = Unit {0}

pub record WorkspaceStore : Type 0 where
  pub get : (workspace_id : String) → Returns Workspace

pub record ApiKeyStore : Type 0 where
  pub find_by_hash : (key_hash : String) → Returns ApiKey
  pub touch_last_used : (key_id : String) → Returns Nothing

-- A Create that takes a pointer is given the fields that it reads, and returns what it fills in.
pub record AccountStore : Type 0 where
  pub get : (account_id : String) → Returns Account
  pub list : (workspace_id : String) → Returns (List Account)
  pub create :
      (workspace_id platform platform_user_id display_name avatar_url token_id : String)
      (token_expires_at : Option Time)
      → Returns Account
  pub delete : (account_id : String) → Returns Nothing
  pub update_token : (account_id token_id : String) (expires_at : Option Time) → Returns Nothing

pub record MediaStore : Type 0 where
  pub get : (media_id : String) → Returns Media
  pub list : (workspace_id : String) (limit : ℤ) (cursor : String) → Returns (List Media × String)
  pub create :
      (workspace_id status media_type original_key mime_type : String) (size_bytes : ℕ)
      → Returns String
  pub delete : (media_id : String) → Returns Nothing
  pub mark_ready : (media_id : String) (formats : Json) (thumbnail_key : String) → Returns Nothing
  pub mark_failed : (media_id reason : String) → Returns Nothing
  pub set_thumbnail : (media_id thumbnail_key : String) → Returns Nothing

pub record PostStore : Type 0 where
  pub get : (post_id : String) → Returns Post
  pub list : (workspace_id : String) (limit : ℤ) (cursor : String) → Returns (List Post × String)
  pub create :
      (workspace_id status : String) (media_ids : List String) (scheduled_at : Option Time)
      (metadata : Json)
      → Returns Post
  pub update : (post_id : String) (fields : Json) → Returns Nothing
  pub delete : (post_id : String) → Returns Nothing
  pub set_status : (post_id status : String) → Returns Nothing
  pub get_target : (target_id : String) → Returns PostTarget
  pub list_targets : (post_id : String) → Returns (List PostTarget)
  pub create_target : (post_id account_id platform format : String) → Json → Returns String
  pub set_target_failed : (target_id reason : String) → Returns Nothing
  pub set_target_published : (target_id platform_post_id permalink : String) → Returns Nothing
  pub list_scheduled : (workspace_id : String) (from to : Time) → Returns (List Post)

pub record AnalyticsStore : Type 0 where
  pub record_snapshot : AnalyticsSnapshot → Returns Nothing
  pub get_post_metrics : (post_id : String) → Returns AnalyticsSnapshot
  pub get_account_metrics : (account_id : String) → Returns AnalyticsSnapshot
  pub get_summary : (workspace_id : String) (from to : Option Time) → Returns AnalyticsSnapshot

pub record WebhookStore : Type 0 where
  pub create :
      (workspace_id url secret_hash secret_enc : String) (events : List String) (enabled : Bool)
      → Returns WebhookEndpoint
  pub list : (workspace_id : String) → Returns (List WebhookEndpoint)
  pub get : (endpoint_id : String) → Returns WebhookEndpoint
  pub delete : (endpoint_id : String) → Returns Nothing
  pub enqueue_delivery : WebhookDeliveryParams → Returns Nothing
  pub list_pending_deliveries : (endpoint_id : String) (limit : ℤ) → Returns (List WebhookDelivery)
  pub mark_delivered : (delivery_id : String) (status_code : ℕ) → Returns Nothing

pub record TokenStore : Type 0 where
  pub decrypt : (token_id : String) → Returns Bytes
  pub save : (token : Bytes) → Returns String

pub record Stores : Type 0 where
  pub workspaces : WorkspaceStore
  pub api_keys : ApiKeyStore
  pub accounts : AccountStore
  pub media : MediaStore
  pub posts : PostStore
  pub analytics : AnalyticsStore
  pub webhooks : WebhookStore
  pub tokens : TokenStore

-- Whether a text is a UUID for the database is the parameter of GetSummary.
module _ (env : Env) (crypto : Crypto) (is_uuid : String → Bool) where
  account_store : AccountStore
  account_store = record {
    get = Accounts.get_account env;
    list = Accounts.list_accounts env;
    create = Accounts.create_account env;
    delete = Accounts.delete_account env;
    update_token = Accounts.update_token env;
  }

  media_store : MediaStore
  media_store = record {
    get = Media.get_media env;
    list = Media.list_media env;
    create = Media.create_media env;
    delete = Media.delete_media env;
    mark_ready = Media.mark_ready env;
    mark_failed = Media.mark_failed env;
    set_thumbnail = Media.set_thumbnail env;
  }

  post_store : PostStore
  post_store = record {
    get = Posts.get env;
    list = Posts.list env;
    create = Posts.create env;
    update = Posts.update env;
    delete = Posts.delete env;
    set_status = Posts.set_status env;
    get_target = Posts.get_target env;
    list_targets = Posts.list_targets env;
    create_target = Posts.create_target env;
    set_target_failed = Posts.set_target_failed env;
    set_target_published = Posts.set_target_published env;
    list_scheduled = Posts.list_scheduled env;
  }

  webhook_store : WebhookStore
  webhook_store = record {
    create = Webhooks.create_endpoint env;
    list = Webhooks.list_endpoints env;
    get = Webhooks.get_endpoint env;
    delete = Webhooks.delete_endpoint env;
    enqueue_delivery = Webhooks.enqueue_delivery env;
    list_pending_deliveries = Webhooks.list_pending_deliveries env;
    mark_delivered = Webhooks.mark_delivered env;
  }

  unfoldable pub new_stores : (token_key : Bytes) → Stores
  unfolding account_store media_store post_store webhook_store
  new_stores token_key = record {
    workspaces = record { get = Accounts.get_workspace env };
    api_keys = record {
      find_by_hash = Accounts.find_by_hash env;
      touch_last_used = Accounts.touch_last_used env;
    };
    accounts = account_store;
    media = media_store;
    posts = post_store;
    analytics = record {
      record_snapshot = Analytics.record_snapshot env;
      get_post_metrics = Analytics.get_post_metrics env;
      get_account_metrics = Analytics.get_account_metrics env;
      get_summary = Analytics.get_summary env is_uuid;
    };
    webhooks = webhook_store;
    tokens = record {
      decrypt = Tokens.decrypt env crypto token_key;
      save = Tokens.save env crypto token_key;
    };
  }
