-- ===== src/Api/Schedule.antt =====
-- internal/api/handler/schedule.go. The query values are given as time.Parse reads them, `none` if
-- a value is missing or is no time.
use socialpublish.Prelude.{
  ℕ, ◌+◌, ◌*◌, ◌%◌, ◌-◌, String, Bool, ◌||◌, Option, none, some, str_eq, select, pos,
}
use socialpublish.Store.Types
use socialpublish.Store.Types.{Time}
use socialpublish.Store.Database.{Env, S, ◌>>=◌, on_result}
use socialpublish.Store.Posts
use socialpublish.Webhook.Signature.{second}
use socialpublish.Api.Http.{
  Response, calendar_body, queue_body, next_available_body, write_json, internal_error,
}

abbrev pub hour : ℕ
hour = 60 * 60 * second

abbrev or_time : Option Time → Time → Time
or_time none t = t
or_time (some t) u = t

-- p.Status == "publishing" || p.Status == "scheduled"
abbrev pub is_queued : Types.Post → Bool
is_queued p = str_eq p.status "publishing" || str_eq p.status "scheduled"

module _ (env : Env) where
  unfoldable pub calendar : (workspace_id : String) (from to : Option Time) → S Response
  calendar workspace_id from to w =
      let now = env.now w.calls in
      let start = or_time from now in
      let stop = or_time to (now + 30 * 24 * hour) in
      (do
        listed ← Posts.list_scheduled env workspace_id start stop
        on_result listed (internal_error env)
            λ posts. write_json 200 (calendar_body posts start stop))
        w

  -- The first page of 50 posts, then those that wait or are being published.
  unfoldable pub queue : (workspace_id : String) → S Response
  queue workspace_id = do
    listed ← Posts.list env workspace_id (pos 50) ""
    on_result listed (internal_error env)
        λ (posts, next). write_json 200 (queue_body (select is_queued posts))

  -- time.Now().Add(time.Hour).Truncate(time.Hour)
  unfoldable pub next_available : S Response
  next_available w =
      let later = env.now w.calls + hour in
      write_json 200 (next_available_body (later - later % hour)) w
