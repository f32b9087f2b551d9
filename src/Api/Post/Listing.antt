-- ===== src/Api/Post/Listing.antt =====
-- internal/api/handler/post.go: PostHandler.List, where it answers 200.
use socialpublish.Prelude.{String, List, ok, Result-cases, inl, inr, ◌≡◌, refl, arith, ℤ}
use socialpublish.Store.Types.{Post}
use socialpublish.Store.Database.{World, Env, ◌>>=◌}
use socialpublish.Store.Posts
use socialpublish.Api.Http.{post_page}
use socialpublish.Api.Post.{list}

pub list-page :
    (env : Env) (workspace_id : String) (limit : ℤ) (cursor : String) (w : World)
    → (list env workspace_id limit cursor w).0.status ≡ 200
    → (posts : List Post) × (next : String) × ((Posts.list env workspace_id limit cursor w).0
        ≡ ok (posts, next))
      × ((list env workspace_id limit cursor w).0
          ≡ record { status = 200; body = post_page posts next })
unfolding list ◌>>=◌
list-page env workspace_id limit cursor w h =
    elim (Result-cases (Posts.list env workspace_id limit cursor w).0) [
      | inl ((posts, next), e) ↦ (posts, next, e, rw e refl)
      | inr (x, e) ↦ let bad : 500 ≡ 200 = rw e at h in absurd (omega (arith, bad))
    ]
