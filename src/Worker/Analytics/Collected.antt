-- ===== src/Worker/Analytics/Collected.antt =====
-- From the task of internal/worker/analytics.go to the answer of internal/api/handler/analytics.go.
use socialpublish.Prelude.{suc, ◌<◌, Bytes, true, some, ok, ◌≡◌, refl, All, select, str_eq}
use socialpublish.Store.Types.{AnalyticsSnapshot}
use socialpublish.Store.Json.{Json, scan_map}
use socialpublish.Store.Database.{World, Env, IsUp, ◌>>=◌, outside, query}
use socialpublish.Store.Tokens.{Crypto, decrypt}
use socialpublish.Store.Analytics.{has_parents, record_snapshot}
use socialpublish.Store.Analytics.Latest.{get_post_metrics-record_snapshot}
use socialpublish.Platform.Adapter.{PlatformAdapter, Metrics}
use socialpublish.Platform.Registry.{Registry}
use socialpublish.Platform.Registry
use socialpublish.Api.Http.{analytics_body}
use socialpublish.Api.Analytics
use socialpublish.Worker.Analytics.{
  AnalyticsPayload, snapshot_of, process_analytics, metrics_map, record_metrics, collect_with,
}

module _ (env : Env) (crypto : Crypto) (key : Bytes) (adapters : Registry)
    (payload : AnalyticsPayload) (adapter : PlatformAdapter) (token : Bytes) (m : Metrics)
    (w v : World) (up : IsUp env) (known : Registry.get adapters payload.platform ≡ some adapter)
    (opened : decrypt env crypto key payload.token_id w ≡ (ok token, v))
    (fetched : adapter.fetch_metrics v.calls token payload.platform_post_id ≡ ok m) where
  -- The snapshot that the task records, `v` being the state behind the decryption of the token.
  abbrev pub collected : AnalyticsSnapshot
  collected = snapshot_of payload m (env.now (suc v.calls))

  abbrev pub fetched_world : World
  fetched_world = record v { calls = suc v.calls }

  process_analytics-records :
      (has_parents collected fetched_world ≡ true)
      → process_analytics env crypto key adapters (some payload) w
        ≡ (ok tt, (record_snapshot env collected fetched_world).1)
  unfolding process_analytics collect_with record_metrics ◌>>=◌ outside record_snapshot query
  process_analytics-records parents =
      rw (known, opened, fetched, up.answers (suc v.calls), parents) refl

  -- With everything up, an adapter for the platform, a token that decrypts and metrics that the
  -- platform gives: if the rows of the payload are there and the post has no snapshot as new, then the
  -- request for the metrics of the post after the task is answered with what the map of the fetched
  -- metrics is read back as.
  pub process_analytics-post :
      (metrics : Json)
      → scan_map env.read_number (metrics_map m) ≡ some metrics
      → (has_parents collected fetched_world ≡ true)
      → All
          (λ (x : AnalyticsSnapshot). x.collected_at < env.now (suc v.calls))
          (select (λ (x : AnalyticsSnapshot). str_eq x.post_id payload.post_id) v.snapshots)
      → (Analytics.post env payload.post_id
          (process_analytics env crypto key adapters (some payload) w).1).0
        ≡ record {
          status = 200;
          body =
              analytics_body (record collected { id = env.fresh (suc v.calls); metrics = metrics });
        }
  unfolding Analytics.post snapshot_of metrics_map ◌>>=◌
  process_analytics-post metrics scanned parents older =
      let read =
        get_post_metrics-record_snapshot env collected metrics fetched_world up parents scanned
          older in
      rw (process_analytics-records parents, read) refl
