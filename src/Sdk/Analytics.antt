-- ===== src/Sdk/Analytics.antt =====
-- sdk/services/analytics: types.go and service.go. The transport, url.PathEscape and Time.Format are
-- parameters.
use socialpublish.Prelude.{ℤ, pos, String, Option, none, some, [], ◌++◌, Bytes, codes, Result}
use socialpublish.Store.Types.{Time}
use socialpublish.Store.Json.{Json, null}
use socialpublish.Sdk.Request.{Doer, Method, StringMap, set_time}

pub record Metrics : Type 0 where
  pub views : ℤ
  pub likes : ℤ
  pub comments : ℤ
  pub shares : ℤ
  pub reach : ℤ
  pub extra : Json

abbrev pub no_metrics : Metrics
no_metrics = record {
  views = pos 0;
  likes = pos 0;
  comments = pos 0;
  shares = pos 0;
  reach = pos 0;
  extra = null;
}

pub record PostMetrics : Type 0 where
  pub post_id : String
  pub metrics : Metrics
  pub updated_at : Time

abbrev pub no_post_metrics : PostMetrics
no_post_metrics = record { post_id = ""; metrics = no_metrics; updated_at = 0 }

pub record AccountMetrics : Type 0 where
  pub account_id : String
  pub metrics : Metrics
  pub updated_at : Time

abbrev pub no_account_metrics : AccountMetrics
no_account_metrics = record { account_id = ""; metrics = no_metrics; updated_at = 0 }

pub record SummaryParams : Type 0 where
  pub from : Option Time
  pub to : Option Time

pub record Summary : Type 0 where
  pub metrics : Metrics

abbrev pub no_summary : Summary
no_summary = record { metrics = no_metrics }

module _ {E : Type 0} (do_json : (B Out : Type 0) → Doer E B Out) (escape : Bytes → Bytes)
    (format : Time → String) where
  unfoldable pub post : (post_id : Bytes) → Result E PostMetrics
  post post_id =
      do_json (Unit {0}) PostMetrics Method.get (codes "/v1/analytics/posts/" ++ escape post_id)
        none none no_post_metrics

  unfoldable pub account : (account_id : Bytes) → Result E AccountMetrics
  account account_id =
      do_json (Unit {0}) AccountMetrics Method.get
        (codes "/v1/analytics/accounts/" ++ escape account_id) none none no_account_metrics

  unfoldable pub summary_query : Option SummaryParams → StringMap
  summary_query none = []
  summary_query (some params) =
      set_time format "to" params.to (set_time format "from" params.from [])

  unfoldable pub summary : Option SummaryParams → Result E Summary
  unfolding summary_query
  summary params =
      do_json (Unit {0}) Summary Method.get (codes "/v1/analytics/summary")
        (some (summary_query params)) none no_summary
