-- ===== src/Wire/Tests.antt =====
-- Examples for the JSON of requests and answers.
mod Created
mod Services
mod Updated
use socialpublish.Prelude.{
  select, ℕ, ℤ, pos, String, true, false, Option, none, some, List, [], ◌∷◌, ◌++◌, map, Bytes,
  codes, bytes_eq, if◌then◌else◌, Result, ok, err, ◌≡◌, refl, sym, ap, subst, arith, length, leb,
  ltb, ◌&&◌, ◌*◌,
}
use socialpublish.Samples.{
  sample_env, sample_world, sample_env-IsUp, sample_crypto, sample_token_key,
}
use socialpublish.Store.Json.{as_map, Json, null, object, end, field, text}
use socialpublish.Store.Types.{Time, TargetRow, PostTarget}
use socialpublish.Store.Types
use socialpublish.Api.Http
use socialpublish.Api.Post
use socialpublish.Store.Posts
use socialpublish.Store.Database.{◌>>=◌, query, next_rows, page_limit, order_desc}
use socialpublish.Pagination.{new_iter}
use socialpublish.Pagination.Walk.{walk}
use socialpublish.Wire.Paged.{fetched, walk-served}
use socialpublish.Api.Http.{Body, error_body, post_body, post_detail, publishing_body, status_body}
use socialpublish.Transport.Errors.{SdkError, api}
use socialpublish.Transport.Retry.{Response, RetryConfig, attempt_result}
use socialpublish.Sdk.Builder.Plan.{Request, PlannedTarget}
use socialpublish.Sdk.Posts.{no_post}
use socialpublish.Wire.Values.{JsonText, TimeText, IsRead, as_text_map}
use socialpublish.Wire.Answers.{body_json, post_json}
use socialpublish.Wire.Reads.{read_post}
use socialpublish.Wire.Requests.{request_json}
use socialpublish.Wire.Served.{on_wire, codec, serve_create, IsReadable}
use socialpublish.Wire.Seen.{post_of, seen_target, posts_seen}
use socialpublish.Webhook.Signature.{second}
use socialpublish.Api.Middleware.{Workspace, LimitHeaders, limit_for, rate_limit, retry_seconds}
use socialpublish.Wire.Failed.{attempt_result-error_body}

-- Every time has one text.
abbrev pub times : TimeText
times = record { print = λ t. "2026-01-01T00:00:00Z"; parse = λ s. some 1767225600000000000 }

abbrev pub chars : Bytes → String
chars b = "00"

abbrev pub float_text : ℕ → String
float_text n = "0"

-- An encoding that tells trees by their first key.
unfoldable pub first_key : Json → Bytes
first_key (object (field k v fs)) = codes k
first_key _ = []

-- It reads one tree.
abbrev pub only : Json → JsonText
only j = record { print = first_key; parse = λ b. some j }

abbrev stored_post : Types.Post
stored_post = record {
  id = "p1";
  workspace_id = "acme";
  status = "draft";
  media_ids = "m1" ∷ [];
  scheduled_at = none;
  published_at = none;
  metadata = object (field "tag" (text "a") end);
  created_at = 0;
  updated_at = 0;
}

abbrev stored_target : PostTarget
stored_target = record {
  id = "t1";
  post_id = "p1";
  account_id = "a1";
  platform = "youtube";
  format = "short";
  config = object end;
  status = "pending";
  platform_post_id = "";
  permalink = "";
  failure_reason = "";
  attempt_count = 0;
  last_attempted_at = none;
  published_at = none;
}

posts_seen_example :
    (post_of times chars (post_body (some stored_post))
      ≡ some (record no_post { status = "draft"; metadata = ("tag", "a") ∷ [] }))
    × (post_of times chars (post_detail stored_post (stored_target ∷ []))
        ≡ some (record no_post { targets = map seen_target (stored_target ∷ []) }))
    × (post_of times chars (publishing_body "publishing" "p1")
        ≡ some (record no_post { id = "p1"; status = "publishing" }))
    × (post_of times chars (status_body "publishing")
        ≡ some (record no_post { status = "publishing" }))
unfolding as_text_map
posts_seen_example =
    posts_seen times chars stored_post (stored_target ∷ []) (("tag", "a") ∷ []) "p1" "publishing"
      refl

only-IsReadable :
    (tree : Json) (b : Body)
    → body_json times chars b ≡ some tree
    → IsReadable (only tree) times chars b
only-IsReadable tree b e j f = let same : tree ≡ j = cc in ap some same

abbrev limited : Json
limited =
    object (field "code" (text "rate_limit") (field "message" (text "rate limit exceeded") end))

limited-IsReadable :
    IsReadable (only limited) times chars (error_body "rate_limit" "rate limit exceeded")
unfolding body_json
limited-IsReadable = only-IsReadable limited (error_body "rate_limit" "rate limit exceeded") refl

abbrev workspace : Workspace
workspace = record { id = "acme"; plan = "free" }

-- What the rate limit sets at the beginning of a minute in which nothing remains.
abbrev limit_headers : LimitHeaders
limit_headers =
    (rate_limit 0 workspace
      λ limit. record { remaining = 0; reset = 60 * second; allowed = false }).0

attempt_result-error_body_example :
    attempt_result
      (codec (only limited) times (read_post times) no_post (λ n. "") (λ b. none))
      true
      (some (
        on_wire
          (only limited)
          times
          chars
          limit_headers.retry_after
          (record { status = 429; body = error_body "rate_limit" "rate limit exceeded" })))
    ≡ err (
        api (record {
          code = "rate_limit";
          message = "rate limit exceeded";
          http_status = 429;
          request_id = "";
          platform = "";
          retry_after = some (pos (61 * second));
          detail = null;
        }))
unfolding rate_limit limit_for retry_seconds
attempt_result-error_body_example =
    attempt_result-error_body (only limited) times chars (read_post times) no_post (λ n. "")
      (λ b. none) true 429 "rate_limit" "rate limit exceeded" limit_headers.retry_after
      (omega arith) limited-IsReadable refl

abbrev listed : Http.Response
listed = (Post.list sample_env "acme" (pos 20) "" sample_world).0

abbrev tree_of : Body → Json
tree_of b = elim (body_json times chars b) [ none ↦ null | some j ↦ j ]

listed-200 : listed.status ≡ 200
unfolding Post.list Posts.list ◌>>=◌ query next_rows page_limit order_desc select as_map
listed-200 = refl

listed-tree : body_json times chars listed.body ≡ some (tree_of listed.body)
unfolding body_json Post.list Posts.list ◌>>=◌ query next_rows page_limit order_desc select as_map
listed-tree = refl

walk-served_example :
    let json = only (tree_of listed.body) in
    let fetch = λ (cursor : String).
      fetched json times chars
        (λ n. "")
        (λ b. none)
        (Post.list sample_env "acme" (pos 20) cursor sample_world).0 in
    ((walk fetch 5 new_iter).0 ≡ [])
    × ((walk fetch 5 new_iter).1.failed ≡ none)
    × ((walk fetch 5 new_iter).1.done ≡ true)
walk-served_example =
    walk-served (only (tree_of listed.body)) times chars (λ n. "") (λ b. none) sample_env "acme"
      (pos 20) (λ cursor. sample_world) 4 listed-200
      (only-IsReadable (tree_of listed.body) listed.body listed-tree)
