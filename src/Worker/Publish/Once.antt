-- ===== src/Worker/Publish/Once.antt =====
-- internal/worker/publish.go: what a task does once the adapter has answered.
use socialpublish.Prelude.{
  suc, some, [], ◌∷◌, ◌++◌, map, select, Bytes, ok, err, Result-cases, inl, inr, ◌⊎◌, ◌≡◌, refl,
}
use socialpublish.Store.Types.{Account, PostTarget, WebhookEndpoint}
use socialpublish.Store.Database.{
  World, Env, IsUp, webhook_task, skip, ◌>>=◌, query, update_where, outside,
}
use socialpublish.Store.Posts
use socialpublish.Store.Posts.{target_is}
use socialpublish.Store.Webhooks.{enqueue_delivery, new_delivery, receives}
use socialpublish.Platform.Adapter.{PublishRequest, PublishResult, PlatformAdapter}
use socialpublish.Worker.Publish.{
  PublishPayload, event_payload, enqueue, publish_with, record_outcome, record_success,
}

-- The request that the adapter is given.
abbrev pub request_of : Account → PostTarget → Bytes → PublishRequest
request_of account target access_token = record {
  account_id = account.id;
  access_token = access_token;
  media_url = "";
  target = some target;
}

module _ (env : Env) (payload : PublishPayload) (account : Account) (target : PostTarget)
    (access_token : Bytes) (adapter : PlatformAdapter) (w : World) where
  -- Once the adapter has published, the result of the task is success or an error that forbids a
  -- retry, whatever fails afterwards.
  pub publish_with-accepted :
      (result : PublishResult)
      → adapter.publish w.calls (some (request_of account target access_token)) ≡ ok result
      → ((publish_with env payload account target access_token (some adapter) w).0 ≡ ok tt)
        ⊎ ((publish_with env payload account target access_token (some adapter) w).0
            ≡ err (skip "persist publish result"))
  unfolding publish_with record_outcome record_success ◌>>=◌ outside
  publish_with-accepted result h =
      elim (Result-cases
        (Posts.set_target_published env payload.target_id result.platform_post_id result.permalink
          (record w { calls = suc w.calls })).0) [
            | inl (_, e) ↦ inl (rw (h, e) refl)
            | inr (_, e) ↦ inr (rw (h, e) refl)
          ]

  -- If the database answers, a publication marks the target as published, stores one delivery for
  -- each enabled endpoint of the account's workspace and enqueues one delivery task, and does
  -- nothing else.
  pub publish_with-up :
      IsUp env
      → (result : PublishResult)
      → adapter.publish w.calls (some (request_of account target access_token)) ≡ ok result
      → publish_with env payload account target access_token (some adapter) w ≡ (
        ok tt,
        record w {
          targets =
              update_where
                (target_is payload.target_id)
                (λ t. record t {
                  status = "published";
                  platform_post_id = some result.platform_post_id;
                  permalink = some result.permalink;
                  published_at = some (env.now (suc w.calls));
                })
                w.targets;
          deliveries =
              w.deliveries
              ++ map
                  (λ (e : WebhookEndpoint).
                    new_delivery env
                      (env.row_id (suc (suc w.calls)) e.id)
                      e.id
                      "post.published"
                      (event_payload env payload target result))
                  (select (receives env account.workspace_id) w.endpoints);
          queue = w.queue ++ webhook_task account.workspace_id ∷ [];
          calls = suc (suc (suc (suc w.calls)));
        },
      )
  unfolding publish_with record_outcome record_success ◌>>=◌ outside Posts.set_target_published
      enqueue_delivery enqueue query
  publish_with-up up result h =
      rw
        (
          h,
          up.answers (suc w.calls),
          up.answers (suc (suc w.calls)),
          up.answers (suc (suc (suc w.calls))),
        )
        refl
