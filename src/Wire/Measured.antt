-- ===== src/Wire/Measured.antt =====
-- The metrics of internal/worker/analytics.go as Post of sdk/services/analytics/service.go reads them
-- from the answer of internal/api/handler/analytics.go. The adapter is any that fits the interface of
-- internal/platform/adapter.go; the program has none yet that gives metrics.
use socialpublish.Prelude.{
  suc, ◌^◌, ◌<◌, String, true, some, Bytes, ok, ℤ, pos, negsuc, All, select, str_eq, ◌≡◌, ◌∙◌, ap,
  arith,
}
use socialpublish.GoText.Print.{strconv_itoa}
use socialpublish.GoText.Print.Codes.{codes-strconv_itoa}
use socialpublish.GoText.Decimal.{InInt64, parse_int, parse_int-format_int}
use socialpublish.Store.Json.{Json, number, as_map, read_numbers, scan_map}
use socialpublish.Store.Types.{AnalyticsSnapshot}
use socialpublish.Store.Database.{World, Env, IsUp}
use socialpublish.Store.Tokens.{Crypto, decrypt}
use socialpublish.Store.Analytics.{has_parents}
use socialpublish.Platform.Adapter
use socialpublish.Platform.Adapter.{PlatformAdapter}
use socialpublish.Platform.Registry.{Registry}
use socialpublish.Platform.Registry
use socialpublish.Api.Http.{analytics_body}
use socialpublish.Api.Analytics
use socialpublish.Worker.Analytics.{AnalyticsPayload, snapshot_of, metrics_map, process_analytics}
use socialpublish.Worker.Analytics.Collected.{process_analytics-post}
use socialpublish.Sdk.Analytics.{Metrics, no_metrics, no_post_metrics}
use socialpublish.Wire.Values.{TimeText, as_int}
use socialpublish.Wire.Answers.{body_json}
use socialpublish.Wire.Services.{read_metrics, read_post_metrics}
use socialpublish.Wire.Lost.{seen_as}

as_int-strconv_itoa : (z : ℤ) → InInt64 z → as_int (number (strconv_itoa z)) ≡ some z
as_int-strconv_itoa z h = ap parse_int (codes-strconv_itoa z) ∙ parse_int-format_int z h

-- Whole numbers that a float64 holds, as the map of the metrics does behind the database.
abbrev pub IsExact : ℤ → Type 0
IsExact (pos n) = n < 2 ^ 53
IsExact (negsuc n) = suc n < 2 ^ 53

IsExact-InInt64 : (z : ℤ) → IsExact z → InInt64 z
IsExact-InInt64 (pos n) h = omega (arith, h)
IsExact-InInt64 (negsuc n) h = omega (arith, h)

pub record AreExact (m : Adapter.Metrics) : Type 0 where
  pub views : IsExact m.views
  pub likes : IsExact m.likes
  pub comments : IsExact m.comments
  pub shares : IsExact m.shares
  pub reach : IsExact m.reach

-- A float64 holds the whole numbers below 2^53, and is written as they are.
pub record KeepsIntegers (env : Env) : Type 0 where
  pub keeps : (z : ℤ) → IsExact z → env.read_number (strconv_itoa z) ≡ some (strconv_itoa z)

-- The metrics of a platform under the names of the SDK.
pub metrics_of : Adapter.Metrics → Metrics
metrics_of m = record {
  views = m.views;
  likes = m.likes;
  comments = m.comments;
  shares = m.shares;
  reach = m.reach;
  extra = m.extra;
}

read_number : (z : ℤ) → IsExact z → as_int (number (strconv_itoa z)) ≡ some z
read_number z h = as_int-strconv_itoa z (IsExact-InInt64 z h)

read_metrics-metrics_map :
    (m : Adapter.Metrics)
    → AreExact m
    → as_map m.extra ≡ some m.extra
    → read_metrics (metrics_map m) no_metrics ≡ some (metrics_of m)
unfolding read_metrics metrics_map metrics_of
read_metrics-metrics_map m h extra = cc (
  read_number m.views h.views,
  read_number m.likes h.likes,
  read_number m.comments h.comments,
  read_number m.shares h.shares,
  read_number m.reach h.reach,
  extra,
)

-- The metrics with other additional values.
abbrev pub with_extra : Adapter.Metrics → Json → Adapter.Metrics
with_extra m extra = record m { extra = extra }

with_extra-AreExact : (m : Adapter.Metrics) (e : Json) → AreExact m → AreExact (with_extra m e)
with_extra-AreExact m e h = record {
  views = h.views;
  likes = h.likes;
  comments = h.comments;
  shares = h.shares;
  reach = h.reach;
}

scan_map-metrics_map :
    (env : Env) (m : Adapter.Metrics) (extra : Json)
    → KeepsIntegers env
    → AreExact m
    → read_numbers env.read_number m.extra ≡ some extra
    → scan_map env.read_number (metrics_map m) ≡ some (metrics_map (with_extra m extra))
unfolding scan_map read_numbers as_map metrics_map
scan_map-metrics_map env m extra numbers h e = cc (
  numbers.keeps m.views h.views,
  numbers.keeps m.likes h.likes,
  numbers.keeps m.comments h.comments,
  numbers.keeps m.shares h.shares,
  numbers.keeps m.reach h.reach,
  e,
)

module _ (times : TimeText) (chars : Bytes → String) where
  seen_as-analytics_body :
      (s : AnalyticsSnapshot) (m : Metrics)
      → read_metrics s.metrics no_metrics ≡ some m
      → seen_as times chars read_post_metrics no_post_metrics (analytics_body s)
        ≡ some (record no_post_metrics { metrics = m })
  unfolding body_json read_post_metrics
  seen_as-analytics_body s m h = cc

  module _ (env : Env) (crypto : Crypto) (key : Bytes) (adapters : Registry)
      (payload : AnalyticsPayload) (adapter : PlatformAdapter) (token : Bytes) (m : Adapter.Metrics)
      (w v : World) (up : IsUp env) (known : Registry.get adapters payload.platform ≡ some adapter)
      (opened : decrypt env crypto key payload.token_id w ≡ (ok token, v))
      (fetched : adapter.fetch_metrics v.calls token payload.platform_post_id ≡ ok m) where
    -- With everything up, an adapter for the platform, a token that decrypts, five counts below 2^53 that
    -- the platform gives, and float64s that hold such numbers: if the numbers of the additional
    -- values are `extra` as float64s, an object or null, the rows of the payload are there and the
    -- post has no snapshot as new, then the SDK reads of the answer for the post after the task
    -- the five counts that were fetched and `extra`, without the identifier of the post and the time.
    pub metrics_seen :
        (extra : Json)
        → KeepsIntegers env
        → AreExact m
        → read_numbers env.read_number m.extra ≡ some extra
        → as_map extra ≡ some extra
        → (has_parents
              (snapshot_of payload m (env.now (suc v.calls)))
              (record v { calls = suc v.calls })
            ≡ true)
        → All
            (λ (x : AnalyticsSnapshot). x.collected_at < env.now (suc v.calls))
            (select (λ (x : AnalyticsSnapshot). str_eq x.post_id payload.post_id) v.snapshots)
        → seen_as times chars read_post_metrics no_post_metrics
            (Analytics.post env payload.post_id
              (process_analytics env crypto key adapters (some payload) w).1).0.body
          ≡ some (record no_post_metrics { metrics = metrics_of (with_extra m extra) })
    unfolding snapshot_of
    metrics_seen extra numbers exact reads is_map parents older =
        let answer =
          process_analytics-post env crypto key adapters payload adapter token m w v up known opened
            fetched (metrics_map (with_extra m extra))
            (scan_map-metrics_map env m extra numbers exact reads) parents older in
        rw answer (
          seen_as-analytics_body _ _ (
            read_metrics-metrics_map (with_extra m extra) (with_extra-AreExact m extra exact)
              is_map))
