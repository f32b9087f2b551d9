-- ===== src/Api/Analytics.antt =====
-- internal/api/handler/analytics.go. `parse` is time.Parse of a query value.
use socialpublish.Prelude.{String, Bool, Option, none, str_eq, if◌then◌else◌}
use socialpublish.Store.Types.{Time}
use socialpublish.Store.Database.{Env, S, ◌>>=◌, on_result}
use socialpublish.Store.Analytics
use socialpublish.Api.Http.{Response, analytics_body, write_json, write_error, internal_error}

-- A time that is missing, or cannot be read, is nil.
unfoldable pub read_time : (parse : String → Option Time) → String → Option Time
read_time parse v = if str_eq v "" then none else parse v

module _ (env : Env) where
  unfoldable pub post : (post_id : String) → S Response
  post post_id = do
    found ← Analytics.get_post_metrics env post_id
    on_result found (λ e. write_error 404 "not_found" "analytics not found")
        λ metrics. write_json 200 (analytics_body metrics)

  unfoldable pub account : (account_id : String) → S Response
  account account_id = do
    found ← Analytics.get_account_metrics env account_id
    on_result found (λ e. write_error 404 "not_found" "analytics not found")
        λ metrics. write_json 200 (analytics_body metrics)

  unfoldable pub summary :
      (is_uuid : String → Bool) (parse : String → Option Time) (workspace_id from to : String)
      → S Response
  unfolding read_time
  summary is_uuid parse workspace_id from to = do
    found ←
        Analytics.get_summary env is_uuid workspace_id (read_time parse from) (read_time parse to)
    on_result found (internal_error env) λ metrics. write_json 200 (analytics_body metrics)
