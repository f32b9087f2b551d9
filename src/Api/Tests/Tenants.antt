-- ===== src/Api/Tests/Tenants.antt =====
-- Examples for the middleware of internal/api/server.go.
use socialpublish.Prelude.{
  ◌≤◌, String, false, not, none, some, List, [], ◌∷◌, All, length, select, Bytes, codes, pos,
  is_empty, ok, ◌≡◌, ◌⊎◌, refl,
}
use socialpublish.Samples.{sample_env, sample_env-IsUp, sample_world, sample_key, sample_post}
use socialpublish.Store.Json.{object, end, as_map}
use socialpublish.Store.Types.{ApiKey, Post, PostTarget}
use socialpublish.Store.Database.{
  World, S, one_row, update_where, page_limit, query, outside, ◌>>=◌, next_rows, order_desc,
}
use socialpublish.Store.Accounts.{find_by_hash, touch_last_used, get_workspace}
use socialpublish.Store.Posts
use socialpublish.Store.Posts.{post_is}
use socialpublish.Store.Posts.Laws.{BelongsTo}
use socialpublish.Api.Http.{Response, empty, post_page, post_detail}
use socialpublish.Api.Middleware.{
  is_expired, allow_in_memory, trim_prefix, authenticate, inject_tenant, rate_limit,
}
use socialpublish.Api.Post
use socialpublish.Api.Chain.{RateLimiter, v1, limited}
use socialpublish.Api.Chain.Guarded.{IsPresented, IsRefused, IsTouched, v1-guarded}
use socialpublish.Api.Chain.Passed.{let_in, Allows}
use socialpublish.Api.Chain.Tenants.{list-v1, v1-any_workspace}

abbrev authorization : Bytes
authorization = codes "Bearer sp_1"

abbrev sha256_hex : Bytes → String
sha256_hex text = "hash"

abbrev limiter : RateLimiter
limiter n workspace_id limit = allow_in_memory n limit

-- A key of the workspace acme that does not expire, and one of another workspace.
abbrev own : ApiKey
own = record sample_key { expires_at = none }

abbrev other : ApiKey
other = record own { workspace_id = "other" }

abbrev own_world : World
own_world = record sample_world { api_keys = own ∷ [] }

abbrev other_world : World
other_world = record sample_world { api_keys = other ∷ [] }

abbrev page : String → S Response
page workspace_id = Post.list sample_env workspace_id (pos 5) ""

abbrev get_method : String
get_method = "GET"

v1-guarded_example :
    ((get_method ≡ "OPTIONS")
      × (v1 sample_env "GET" sha256_hex limiter authorization page own_world
          ≡ (record { status = 200; body = empty }, own_world)))
    ⊎ (IsRefused own_world (v1 sample_env "GET" sha256_hex limiter authorization page own_world)
        ⊎ ((key : ApiKey) × (v : World) × IsPresented sample_env sha256_hex authorization own_world
              key
            × IsTouched own_world v
            × (v1 sample_env "GET" sha256_hex limiter authorization page own_world
                ≡ page key.workspace_id v)))
v1-guarded_example = v1-guarded sample_env sha256_hex authorization own_world "GET" limiter page

answered : (v1 sample_env "GET" sha256_hex limiter authorization page own_world).0.status ≡ 200
unfolding v1 authenticate find_by_hash touch_last_used inject_tenant get_workspace limited query
    one_row is_expired trim_prefix outside rate_limit allow_in_memory Post.list Posts.list ◌>>=◌
    next_rows page_limit order_desc select as_map
answered = refl

list-v1_example :
    (key : ApiKey) × (posts : List Post) × (next : String) × IsPresented sample_env sha256_hex
      authorization own_world key
    × ((v1 sample_env "GET" sha256_hex limiter authorization page own_world).0.body
        ≡ post_page posts next)
    × All (BelongsTo key.workspace_id) posts
    × (length posts ≤ page_limit (pos 5))
list-v1_example = list-v1 sample_env sha256_hex authorization own_world limiter (pos 5) "" answered

-- The key of the other workspace reaches the post of acme.
abbrev serve : String → S Response → Response × World
serve method handler =
    v1 sample_env method sha256_hex limiter authorization (λ _. handler) other_world

presented : IsPresented sample_env sha256_hex authorization other_world other
unfolding one_row is_expired
presented = (refl, refl)

found : one_row (post_is "p1") other_world.posts ≡ ok sample_post
unfolding one_row
found = refl

given : is_empty (trim_prefix authorization (codes "Bearer ")) ≡ false
unfolding trim_prefix
given = refl

allowed : Allows limiter "other"
unfolding allow_in_memory
allowed n limit = refl

readable : as_map sample_post.metadata ≡ some (object end)
unfolding as_map
readable = refl

v1-any_workspace_example :
    ((targets : List PostTarget) × ((serve "GET" (Post.get sample_env "p1")).0 ≡ record {
      status = 200;
      body = post_detail (record sample_post { metadata = object end }) targets;
    }))
    × ((serve "POST" (Post.cancel sample_env "p1")).0.status ≡ 200)
    × ((serve "POST" (Post.cancel sample_env "p1")).1.posts
        ≡ update_where
            (post_is "p1")
            (λ q. record q {
              status = "cancelled";
              updated_at = sample_env.now (let_in sample_env other other_world).calls;
            })
            other_world.posts)
    × ((serve "DELETE" (Post.delete sample_env "p1")).0.status ≡ 204)
    × ((serve "DELETE" (Post.delete sample_env "p1")).1.posts
        ≡ select (λ q. not (post_is "p1" q)) other_world.posts)
v1-any_workspace_example =
    v1-any_workspace sample_env sha256_hex authorization other other_world limiter "p1" sample_post
      (object end) sample_env-IsUp given presented allowed found readable
