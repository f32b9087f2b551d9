-- ===== src/Api/Chain/Tenants.antt =====
-- internal/api/server.go with internal/api/handler/post.go: what a key of one workspace reaches.
use socialpublish.Prelude.{
  ◌≤◌, suc, String, Bool, str_eq, true, false, not, Bytes, codes, is_empty, List, [], ◌∷◌, length,
  All, some, ok, select, Bool-cases, Result-cases, inl, inr, ℤ, ◌≡◌, refl, arith,
}
use socialpublish.Store.Json.{Json, as_map}
use socialpublish.Store.Types.{ApiKey, Post, PostTarget}
use socialpublish.Store.Database.{
  World, Env, IsUp, S, one_row, exists_row, update_where, query, ◌>>=◌,
}
use socialpublish.Store.Posts
use socialpublish.Store.Posts.{post_is}
use socialpublish.Store.Posts.Laws.{BelongsTo, list-BelongsTo}
use socialpublish.Store.Database.{page_limit}
use socialpublish.Api.Http.{Response, post_page, post_detail}
use socialpublish.Api.Middleware.{trim_prefix}
use socialpublish.Api.Post
use socialpublish.Api.Post.Listing.{list-page}
use socialpublish.Api.Chain.{RateLimiter, v1}
use socialpublish.Api.Chain.Guarded.{IsPresented, v1-guarded}
use socialpublish.Api.Chain.Passed.{let_in, Allows, v1-passed}

module _ (env : Env) (sha256_hex : Bytes → String) (authorization : Bytes) (w : World)
    (limiter : RateLimiter) where
  -- A list of posts that is answered by 200 holds at most the limit, and only posts of the workspace
  -- of an unexpired key of the table, the one that the request presents, whatever fails.
  pub list-v1 :
      (limit : ℤ) (cursor : String)
      → let outcome =
          v1 env "GET" sha256_hex limiter authorization
            (λ workspace_id. Post.list env workspace_id limit cursor)
            w in
        outcome.0.status ≡ 200
        → (key : ApiKey) × (posts : List Post) × (next : String) × IsPresented env sha256_hex
            authorization w key
          × (outcome.0.body ≡ post_page posts next)
          × All (BelongsTo key.workspace_id) posts
          × (length posts ≤ page_limit limit)
  list-v1 limit cursor h =
      elim (v1-guarded env sha256_hex authorization w "GET" limiter
        (λ workspace_id. Post.list env workspace_id limit cursor)) [
          | inl (options, e) ↦ absurd (cc)
          | inr (inl (inl s, t)) ↦ absurd (omega (arith, h, s))
          | inr (inl (inr s, t)) ↦ absurd (omega (arith, h, s))
          | inr (inr (key, v, presented, t, e)) ↦
              let (posts, next, listed, answer) =
                list-page env key.workspace_id limit cursor v (rw e at h) in
              let (own, few) =
                list-BelongsTo env key.workspace_id limit cursor v posts next listed in
              (key, posts, next, presented, rw (e, answer) refl, own, few)
        ]

exists_row-found :
    {A : Type 0} (p : A → Bool) (xs : List A) {a : A} → one_row p xs ≡ ok a → exists_row p xs ≡ true
unfolding one_row exists_row
exists_row-found p [] e = absurd (cc)
exists_row-found p (x ∷ xs) e = elim (Bool-cases (p x)) [
  | inl t ↦ rw t refl
  | inr f ↦ rw f (exists_row-found p xs (rw f at e))
]

module _ (env : Env) (post_id : String) (p : Post) (metadata : Json) (w : World) (up : IsUp env)
    (found : one_row (post_is post_id) w.posts ≡ ok p)
    (readable : as_map p.metadata ≡ some metadata) where
  abbrev read : Post
  read = record p { metadata = metadata }

  get-read : Posts.get env post_id w ≡ (ok read, record w { calls = suc w.calls })
  unfolding Posts.get query
  get-read = rw (up.answers w.calls, found) (cc)

  get-answered :
      (targets : List PostTarget) × ((Post.get env post_id w).0
        ≡ record { status = 200; body = post_detail read targets })
  unfolding Post.get ◌>>=◌
  get-answered =
      let v = record w { calls = suc w.calls } in
      elim (Result-cases (Posts.list_targets env p.id v).0) [
        | inl (targets, e) ↦ (targets, rw (get-read, e) refl)
        | inr (x, e) ↦ ([], rw (get-read, e) refl)
      ]

  cancel-answered :
      ((Post.cancel env post_id w).0.status ≡ 200)
      × ((Post.cancel env post_id w).1.posts
          ≡ update_where
              (post_is post_id)
              (λ q. record q { status = "cancelled"; updated_at = env.now w.calls })
              w.posts)
  unfolding Post.cancel Posts.set_status ◌>>=◌ query
  cancel-answered = rw (up.answers w.calls) (refl, refl)

  delete-answered :
      ((Post.delete env post_id w).0.status ≡ 204)
      × ((Post.delete env post_id w).1.posts ≡ select (λ q. not (post_is post_id q)) w.posts)
  unfolding Post.delete Posts.delete ◌>>=◌ query
  delete-answered =
      rw (up.answers w.calls, exists_row-found (post_is post_id) w.posts found) (refl, refl)

-- With the database up, a presented key of whatever workspace and a limiter that lets it pass: the post
-- with an identifier, of whatever workspace, if its metadata can be read, is answered by Get, set to
-- cancelled by Cancel and removed by Delete.
pub v1-any_workspace :
    (env : Env) (sha256_hex : Bytes → String) (authorization : Bytes) (key : ApiKey) (w : World)
    (limiter : RateLimiter) (post_id : String) (p : Post) (metadata : Json)
    → IsUp env
    → is_empty (trim_prefix authorization (codes "Bearer ")) ≡ false
    → IsPresented env sha256_hex authorization w key
    → Allows limiter key.workspace_id
    → one_row (post_is post_id) w.posts ≡ ok p
    → as_map p.metadata ≡ some metadata
    → let serve = λ (method : String) (handler : S Response).
      v1 env method sha256_hex limiter authorization (λ _. handler) w in
      ((targets : List PostTarget) × ((serve "GET" (Post.get env post_id)).0
          ≡ record { status = 200; body = post_detail (record p { metadata = metadata }) targets }))
      × ((serve "POST" (Post.cancel env post_id)).0.status ≡ 200)
      × ((serve "POST" (Post.cancel env post_id)).1.posts
          ≡ update_where
              (post_is post_id)
              (λ q. record q {
                status = "cancelled";
                updated_at = env.now (let_in env key w).calls;
              })
              w.posts)
      × ((serve "DELETE" (Post.delete env post_id)).0.status ≡ 204)
      × ((serve "DELETE" (Post.delete env post_id)).1.posts
          ≡ select (λ q. not (post_is post_id q)) w.posts)
v1-any_workspace env sha256_hex authorization key w limiter post_id p metadata up nonempty presented
      allows found readable =
    let v = let_in env key w in
    let passes =
      λ (method : String) (handler : S Response) (other : str_eq method "OPTIONS" ≡ false).
        v1-passed env sha256_hex authorization key w up nonempty presented method limiter
          (λ _. handler) other allows in
    let (targets, got) = get-answered env post_id p metadata v up found readable in
    let (s, cancelled) = cancel-answered env post_id p metadata v up found readable in
    let (t, deleted) = delete-answered env post_id p metadata v up found readable in
    (
      (targets, rw (passes "GET" (Post.get env post_id) refl) got),
      rw (passes "POST" (Post.cancel env post_id) refl) s,
      rw (passes "POST" (Post.cancel env post_id) refl) cancelled,
      rw (passes "DELETE" (Post.delete env post_id) refl) t,
      rw (passes "DELETE" (Post.delete env post_id) refl) deleted,
    )
