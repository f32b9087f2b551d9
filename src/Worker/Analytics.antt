-- ===== src/Worker/Analytics.antt =====
-- internal/worker/analytics.go: analyticsHandler.ProcessTask.
pub mod Collected
use socialpublish.Prelude.{String, Bytes, Option, none, some, Result, ok, err}
use socialpublish.GoText.Print.{strconv_itoa}
use socialpublish.Store.Json.{Json, number, object, field, end}
use socialpublish.Store.Types.{Time, AnalyticsSnapshot}
use socialpublish.Store.Database.{
  World, Env, Error, wrap, skip, S, ◌>>=◌, pure, or_return, outside, named,
}
use socialpublish.Store.Tokens.{Crypto, decrypt}
use socialpublish.Store.Analytics.{record_snapshot}
use socialpublish.Platform.Adapter.{PlatformAdapter, Metrics}
use socialpublish.Platform.Registry.{Registry}
use socialpublish.Platform.Registry

pub record AnalyticsPayload : Type 0 where
  pub workspace_id : String
  pub account_id : String
  pub platform : String
  pub token_id : String
  pub post_id : String
  pub platform_post_id : String

-- The map of the metrics.
unfoldable pub metrics_map : Metrics → Json
metrics_map m = object (
    field "views" (number (strconv_itoa m.views)) (
      field "likes" (number (strconv_itoa m.likes)) (
        field "comments" (number (strconv_itoa m.comments)) (
          field "shares" (number (strconv_itoa m.shares))
            (field "reach" (number (strconv_itoa m.reach)) (field "extra" m.extra end))))))

-- The identifier is empty: it is not written.
unfoldable pub snapshot_of : AnalyticsPayload → Metrics → Time → AnalyticsSnapshot
unfolding metrics_map
snapshot_of payload m now = record {
  id = "";
  workspace_id = payload.workspace_id;
  account_id = payload.account_id;
  post_id = payload.post_id;
  platform_post_id = payload.platform_post_id;
  metrics = metrics_map m;
  collected_at = now;
}

module _ (env : Env) (crypto : Crypto) (key : Bytes) (adapters : Registry) where
  -- The clock is read before the call that records.
  record_metrics : AnalyticsPayload → Metrics → S (Result Error (Unit {0}))
  unfolding snapshot_of
  record_metrics payload m w = record_snapshot env (snapshot_of payload m (env.now w.calls)) w

  unfoldable pub collect_with :
      AnalyticsPayload → Option PlatformAdapter → S (Result Error (Unit {0}))
  unfolding record_metrics
  collect_with payload none =
      pure (err (skip (named "no adapter for platform " payload.platform "")))
  collect_with payload (some adapter) = do
    decrypted ← decrypt env crypto key payload.token_id
    or_return decrypted (wrap "decrypt analytics token") λ token. do
      fetched ← outside λ n. adapter.fetch_metrics n token payload.platform_post_id
      or_return fetched (wrap "fetch metrics") λ m. do
        recorded ← record_metrics payload m
        or_return recorded (wrap "record metrics") λ _. pure (ok tt)

  unfoldable pub process_analytics : Option AnalyticsPayload → S (Result Error (Unit {0}))
  unfolding collect_with
  process_analytics none = pure (err (skip "unmarshal analytics payload"))
  process_analytics (some payload) = collect_with payload (Registry.get adapters payload.platform)
