-- ===== src/Server/Worker/Handlers.antt =====
-- internal/worker: the handlers of the tasks, where the adapters refuse.
use socialpublish.Prelude.{
  ℕ, suc, String, Option, none, some, List, [], ◌∷◌, Bytes, Result, err, ◌≡◌,
}
use socialpublish.Store.Types.{Account, PostTarget, WebhookEndpoint, WebhookDelivery}
use socialpublish.Store.Database.{Env, Error, S, ◌>>=◌, outside, or_return}
use socialpublish.Store.Tokens.{Crypto}
use socialpublish.Platform.Adapter.{PlatformAdapter, PublishRequest}
use socialpublish.Platform.Registry.{Registry}
use socialpublish.Platform.Registry
use socialpublish.Ffmpeg.{Runner, transcode}
use socialpublish.Worker.Publish.{
  PublishPayload, record_failure, record_outcome, publish_with, process_publish,
}
use socialpublish.Worker.Refresh.{TokenRefreshPayload, refresh_with, process_refresh}
use socialpublish.Worker.Transcode.{
  TranscodePayload, record_failed, record_ready, process_transcode,
}
use socialpublish.Worker.Analytics.{AnalyticsPayload, collect_with, process_analytics}
use socialpublish.Worker.Deliver.{
  Client, after_send, deliver_one, deliver_each, deliver_pending, serve_endpoint, serve_endpoints,
  process_deliver,
}
use socialpublish.Server.Worker.Idle.{
  Idles, Idles-pure, Idles-bind, Idles-on_result, Idles-or_return, Idles-outside, Idles-if,
  get_target-Idles, get_account-Idles, decrypt-Idles, set_target_failed-Idles, mark_failed-Idles,
  mark_ready-Idles, list_endpoints-Idles, list_pending_deliveries-Idles, mark_delivered-Idles,
}

-- Every call of the adapter to its platform fails.
pub record Refuses (a : PlatformAdapter) : Type 0 where
  pub publishes : (n : ℕ) (req : Option PublishRequest) → (e : Error) × (a.publish n req ≡ err e)
  pub refreshes : (n : ℕ) (token : Bytes) → (e : Error) × (a.refresh_token n token ≡ err e)
  pub fetches :
      (n : ℕ) (token : Bytes) (id : String) → (e : Error) × (a.fetch_metrics n token id ≡ err e)

-- The adapter that a registry finds, if there is one.
unfoldable pub RefusesFound : Option PlatformAdapter → Type 0
RefusesFound none = Unit
RefusesFound (some a) = Refuses a

behind_error :
    {A B : Type 0} (r : Result Error A) (k : Result Error A → S B)
    → (e : Error) × (r ≡ err e)
    → ((e : Error) → Idles (k (err e)))
    → Idles (k r)
behind_error r k (e, h) kk = rw h (kk e)

-- A call to the outside that fails at every number.
outside-Idles :
    {A B : Type 0} (f : ℕ → Result Error A) (k : Result Error A → S B)
    → ((n : ℕ) → (e : Error) × (f n ≡ err e))
    → ((e : Error) → Idles (k (err e)))
    → Idles (outside f >>= k)
unfolding outside ◌>>=◌
outside-Idles f k fails kk = record {
  at = λ w. (behind_error (f w.calls) k (fails w.calls) kk).at (record w { calls = suc w.calls });
}

module _ (env : Env) where
  record_failure-Idles :
      (payload : PublishPayload) (e : Error) → Idles (record_failure env payload e)
  unfolding record_failure
  record_failure-Idles payload e =
      Idles-bind _ _ (set_target_failed-Idles env payload.target_id _) λ _. Idles-pure _

  publish_with-Idles :
      (payload : PublishPayload) (account : Account) (target : PostTarget) (token : Bytes)
      (found : Option PlatformAdapter)
      → RefusesFound found
      → Idles (publish_with env payload account target token found)
  unfolding publish_with record_outcome RefusesFound
  publish_with-Idles payload account target token none h = Idles-pure _
  publish_with-Idles payload account target token (some a) h =
      outside-Idles _ _ (λ n. h.publishes n _) (record_failure-Idles payload)

  module _ (crypto : Crypto) (key : Bytes) (adapters : Registry)
      (refuse : (platform : String) → RefusesFound (Registry.get adapters platform)) where
    pub process_publish-Idles :
        (payload : Option PublishPayload) → Idles (process_publish env crypto key adapters payload)
    unfolding process_publish
    process_publish-Idles none = Idles-pure _
    process_publish-Idles (some payload) =
        Idles-bind _ _ (get_target-Idles env payload.target_id) λ found.
          Idles-or_return found _ _ λ target.
            Idles-bind _ _ (get_account-Idles env target.account_id) λ owner.
              Idles-or_return owner _ _ λ account.
                Idles-bind _ _ (decrypt-Idles env crypto key account.token_id) λ token.
                  Idles-or_return token _ _ λ access_token.
                    publish_with-Idles payload account target access_token _
                      (refuse target.platform)

    refresh_with-Idles :
        (payload : TokenRefreshPayload) (found : Option PlatformAdapter)
        → RefusesFound found
        → Idles (refresh_with env crypto key adapters payload found)
    unfolding refresh_with RefusesFound or_return
    refresh_with-Idles payload none h = Idles-pure _
    refresh_with-Idles payload (some a) h =
        outside-Idles _ _ (λ n. h.refreshes n payload.refresh_token) λ e. Idles-pure _

    pub process_refresh-Idles :
        (payload : Option TokenRefreshPayload)
        → Idles (process_refresh env crypto key adapters payload)
    unfolding process_refresh
    process_refresh-Idles none = Idles-pure _
    process_refresh-Idles (some payload) = refresh_with-Idles payload _ (refuse payload.platform)

    collect_with-Idles :
        (payload : AnalyticsPayload) (found : Option PlatformAdapter)
        → RefusesFound found
        → Idles (collect_with env crypto key adapters payload found)
    unfolding collect_with RefusesFound or_return
    collect_with-Idles payload none h = Idles-pure _
    collect_with-Idles payload (some a) h =
        Idles-bind _ _ (decrypt-Idles env crypto key payload.token_id) λ decrypted.
          Idles-or_return decrypted _ _ λ token.
            outside-Idles _ _ (λ n. h.fetches n token payload.platform_post_id) λ e. Idles-pure _

    pub process_analytics-Idles :
        (payload : Option AnalyticsPayload)
        → Idles (process_analytics env crypto key adapters payload)
    unfolding process_analytics
    process_analytics-Idles none = Idles-pure _
    process_analytics-Idles (some payload) = collect_with-Idles payload _ (refuse payload.platform)

  module _ (execute : ℕ → String → ℕ → List String → Result Error (Unit {0})) (ff : Runner) where
    transcode-Idles : (i o : String) (preset : _) → Idles (transcode execute ff i o preset)
    unfolding transcode
    transcode-Idles i o preset =
        Idles-if _ _ _ (Idles-pure _) (Idles-bind _ _ (Idles-outside _) λ done. Idles-pure _)

    pub process_transcode-Idles :
        (payload : Option TranscodePayload) → Idles (process_transcode env execute ff payload)
    unfolding process_transcode record_failed record_ready
    process_transcode-Idles none = Idles-pure _
    process_transcode-Idles (some payload) =
        Idles-bind _ _ (transcode-Idles payload.input_path payload.output_path payload.preset)
          λ done.
            Idles-on_result done _ _
              (λ e.
                Idles-bind _ _ (mark_failed-Idles env payload.media_id _)
                  λ marked. Idles-on_result marked _ _ (λ m. Idles-pure _) λ _. Idles-pure _)
              λ _.
                Idles-bind _ _ (mark_ready-Idles env payload.media_id _ _)
                  λ marked. Idles-or_return marked _ _ λ _. Idles-pure _

  module _ (client : Client) where
    after_send-Idles :
        (ep : WebhookEndpoint) (d : WebhookDelivery) (last : Option Error) (status : Option ℕ)
        → Idles (after_send env client ep d last status)
    unfolding after_send
    after_send-Idles ep d last none = Idles-pure _
    after_send-Idles ep d last (some status) =
        Idles-bind _ _ (mark_delivered-Idles env d.id status) λ _. Idles-pure _

    deliver_one-Idles :
        (ep : WebhookEndpoint) (secret : Bytes) (d : WebhookDelivery) (last : Option Error)
        → Idles (deliver_one env client ep secret d last)
    unfolding deliver_one
    deliver_one-Idles ep secret d last =
        Idles-if _ _ _ (Idles-pure _)
          (Idles-bind _ _ (Idles-outside _) λ response. after_send-Idles ep d last response)

    deliver_each-Idles :
        (ep : WebhookEndpoint) (secret : Bytes) (ds : List WebhookDelivery) (last : Option Error)
        → Idles (deliver_each env client ep secret ds last)
    unfolding deliver_each
    deliver_each-Idles ep secret [] last = Idles-pure _
    deliver_each-Idles ep secret (d ∷ ds) last =
        Idles-bind _ _ (deliver_one-Idles ep secret d last)
          λ next. deliver_each-Idles ep secret ds next

    module _ (crypto : Crypto) (key : Bytes) where
      deliver_pending-Idles :
          (ep : WebhookEndpoint) (ds : List WebhookDelivery) (last : Option Error)
          → Idles (deliver_pending env client crypto key ep ds last)
      unfolding deliver_pending
      deliver_pending-Idles ep [] last = Idles-pure _
      deliver_pending-Idles ep (d ∷ ds) last =
          Idles-bind _ _ (decrypt-Idles env crypto key ep.secret_enc) λ secret.
            Idles-on_result secret _ _ (λ e. Idles-pure _)
              λ s. deliver_each-Idles ep s (d ∷ ds) last

      serve_endpoint-Idles :
          (ep : WebhookEndpoint) (last : Option Error)
          → Idles (serve_endpoint env client crypto key ep last)
      unfolding serve_endpoint
      serve_endpoint-Idles ep last = Idles-if _ _ _ (Idles-pure _) (
          Idles-bind _ _ (list_pending_deliveries-Idles env ep.id _) λ pending.
            Idles-on_result pending _ _ (λ e. Idles-pure _) λ ds. deliver_pending-Idles ep ds last)

      serve_endpoints-Idles :
          (eps : List WebhookEndpoint) (last : Option Error)
          → Idles (serve_endpoints env client crypto key eps last)
      unfolding serve_endpoints
      serve_endpoints-Idles [] last = Idles-pure _
      serve_endpoints-Idles (ep ∷ eps) last =
          Idles-bind _ _ (serve_endpoint-Idles ep last) λ next. serve_endpoints-Idles eps next

      pub process_deliver-Idles :
          (workspace_id : Option String)
          → Idles (process_deliver env client crypto key workspace_id)
      unfolding process_deliver
      process_deliver-Idles none = Idles-pure _
      process_deliver-Idles (some workspace_id) =
          Idles-bind _ _ (list_endpoints-Idles env workspace_id) λ listed.
            Idles-or_return listed _ _ λ endpoints.
              Idles-bind _ _ (serve_endpoints-Idles endpoints none) λ last. Idles-pure _
