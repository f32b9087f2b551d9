-- ===== src/Worker/Publish.antt =====
-- internal/worker/publish.go: publishHandler.ProcessTask, and AsynqQueue.Enqueue of
-- internal/queue/asynq.go.
pub mod Once
use Prim.Native.String
use socialpublish.Prelude.{
  ℕ, suc, String, Option, none, some, List, [], ◌∷◌, ◌++◌, if◌then◌else◌, Bytes, Result, ok, err,
}
use socialpublish.Store.Json.{Json, text, object, field, end}
use socialpublish.Store.Types.{Account, PostTarget}
use socialpublish.Store.Database.{
  World, Env, Task, webhook_task, Error, plain, wrap, skip, S, ◌>>=◌, ◌>>◌, pure, call, query,
  or_return, outside, named, error_text,
}
use socialpublish.Store.Posts
use socialpublish.Store.Accounts.{get_account}
use socialpublish.Store.Tokens.{Crypto, decrypt}
use socialpublish.Store.Webhooks.{enqueue_delivery}
use socialpublish.Platform.Adapter.{PublishRequest, PublishResult, PlatformAdapter}
use socialpublish.Platform.Registry.{Registry}
use socialpublish.Platform.Registry

pub record PublishPayload : Type 0 where
  pub post_id : String
  pub target_id : String

module _ (env : Env) where
  unfoldable pub enqueue : (task_type : String) → Task → S (Result Error (Unit {0}))
  enqueue task_type task =
      query env (named "enqueue task " task_type "")
        λ n w. (ok tt, record w { queue = w.queue ++ task ∷ [] })

  -- The event that tells the workspace of a published target.
  pub event_payload : PublishPayload → PostTarget → PublishResult → Json
  event_payload payload target result = object (
      field "post_id" (text payload.post_id) (
        field "target_id" (text payload.target_id) (
          field "platform" (text target.platform) (
            field "platform_post_id" (text result.platform_post_id)
              (field "permalink" (text result.permalink) end)))))

  -- What follows a call of the adapter that fails: the failure is recorded, if that succeeds.
  unfoldable pub record_failure : PublishPayload → Error → S (Result Error (Unit {0}))
  record_failure payload e = do
    Posts.set_target_failed env payload.target_id (error_text env e)
    pure (err (wrap "adapter publish" e))

  -- What follows a call of it that succeeds. The outcomes of the last two calls are not looked at.
  record_success :
      PublishPayload → Account → PostTarget → PublishResult → S (Result Error (Unit {0}))
  unfolding event_payload
  record_success payload account target result = do
    marked ←
        Posts.set_target_published env payload.target_id result.platform_post_id result.permalink
    or_return marked (λ e. skip "persist publish result")
        λ _. do
          enqueue_delivery env (record {
            workspace_id = account.workspace_id;
            event_type = "post.published";
            payload = event_payload payload target result;
          })
          enqueue "webhook:deliver" (webhook_task account.workspace_id)
          pure (ok tt)

  unfoldable pub record_outcome :
      PublishPayload
      → Account
      → PostTarget
      → Result Error PublishResult
      → S (Result Error (Unit {0}))
  unfolding record_failure record_success
  record_outcome payload account target (err e) = record_failure payload e
  record_outcome payload account target (ok result) = record_success payload account target result

  unfoldable pub publish_with :
      PublishPayload
      → Account
      → PostTarget
      → Bytes
      → Option PlatformAdapter
      → S (Result Error (Unit {0}))
  unfolding record_outcome
  publish_with payload account target access_token none =
      pure (err (skip (named "no adapter for platform " target.platform "")))
  publish_with payload account target access_token (some adapter) = do
    result ← outside λ n. adapter.publish n (
        some (record {
          account_id = account.id;
          access_token = access_token;
          media_url = "";
          target = some target;
        }))
    record_outcome payload account target result

  module _ (crypto : Crypto) (key : Bytes) (adapters : Registry) where
    -- `none` is a payload that is not JSON of the right form.
    unfoldable pub process_publish : Option PublishPayload → S (Result Error (Unit {0}))
    unfolding publish_with
    process_publish none = pure (err (skip "unmarshal publish payload"))
    process_publish (some payload) = do
      found ← Posts.get_target env payload.target_id
      or_return found (wrap (named "get target " payload.target_id "")) λ target. do
        owner ← get_account env target.account_id
        or_return owner (wrap (named "get account " target.account_id "")) λ account. do
          token ← decrypt env crypto key account.token_id
          or_return token (wrap (named "decrypt token for account " account.id "")) λ access_token.
              publish_with payload account target access_token
                (Registry.get adapters target.platform)
