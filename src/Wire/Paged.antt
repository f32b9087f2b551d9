-- ===== src/Wire/Paged.antt =====
-- The iterator of sdk/pagination.go over List of sdk/services/post/service.go, answered by List of
-- internal/api/handler/post.go.
use socialpublish.Prelude.{
  ℕ, suc, true, false, String, List, [], ◌∷◌, Option, none, some, Bytes, Result, ok, err, ◌≡◌, refl,
  ℤ,
}
use socialpublish.Store.Json.{text}
use socialpublish.Store.Types
use socialpublish.Store.Database.{World, Env}
use socialpublish.Api.Http
use socialpublish.Api.Http.{post_page}
use socialpublish.Api.Post
use socialpublish.Api.Post.Listing.{list-page}
use socialpublish.Pagination
use socialpublish.Pagination.{new_iter}
use socialpublish.Pagination.Walk.{walk, walk-empty}
use socialpublish.Transport.Errors.{SdkError}
use socialpublish.Transport.Retry.{attempt_result, handle_response}
use socialpublish.Sdk.Post.{Post}
use socialpublish.Sdk.Posts.{Page, no_page, pager}
use socialpublish.Wire.Values.{JsonText, TimeText, struct, slice}
use socialpublish.Wire.Answers.{body_json, post_json}
use socialpublish.Wire.Reads.{read_page}
use socialpublish.Wire.Served.{codec, on_wire, decode, IsReadable}

-- The page that List returns, nil standing for one without items.
abbrev page_or_error : Result SdkError (Option Page) → Result SdkError (Pagination.Page Post)
page_or_error (ok (some p)) = ok (pager p)
page_or_error (ok none) = ok (pager no_page)
page_or_error (err e) = err e

module _ (json : JsonText) (times : TimeText) (chars : Bytes → String) (status_text : ℕ → String)
    (until : Bytes → Option ℤ) where
  -- What the client makes of an answer to List.
  abbrev pub fetched : Http.Response → Result SdkError (Pagination.Page Post)
  fetched answer = page_or_error (
      attempt_result (codec json times (read_page times) no_page status_text until) true
        (some (on_wire json times chars none answer)))

  fetched-post_page :
      (posts : List Types.Post) (next : String)
      → IsReadable json times chars (post_page posts next)
      → fetched (record { status = 200; body = post_page posts next })
        ≡ ok (record { items = []; next_cursor = next; has_more = false })
  unfolding attempt_result handle_response on_wire decode body_json read_page
  fetched-post_page posts next readable =
      let reads =
        readable
          (struct (("data", slice (post_json times) posts) ∷ ("next_cursor", text next) ∷ []))
          refl in
      rw (page_or_error, on_wire, reads) refl

  -- If List answers the first request with 200, in a body that is read as it was written: a loop over
  -- the posts of the workspace sees nothing and ends without an error, whatever posts there are.
  pub walk-served :
      (env : Env) (workspace_id : String) (limit : ℤ) (at_call : String → World) (fuel : ℕ)
      → (Post.list env workspace_id limit "" (at_call "")).0.status ≡ 200
      → IsReadable json times chars (Post.list env workspace_id limit "" (at_call "")).0.body
      → let fetch = λ (cursor : String).
        fetched (Post.list env workspace_id limit cursor (at_call cursor)).0 in
        ((walk fetch (suc fuel) new_iter).0 ≡ [])
        × ((walk fetch (suc fuel) new_iter).1.failed ≡ none)
        × ((walk fetch (suc fuel) new_iter).1.done ≡ true)
  walk-served env workspace_id limit at_call fuel answered readable =
      let (posts, next, _, e) = list-page env workspace_id limit "" (at_call "") answered in
      let first : fetched (Post.list env workspace_id limit "" (at_call "")).0
          ≡ ok (record { items = []; next_cursor = next; has_more = false }) =
        rw e (fetched-post_page posts next (rw e at readable)) in
      walk-empty
        (λ (cursor : String). fetched (Post.list env workspace_id limit cursor (at_call cursor)).0)
        fuel next false first
