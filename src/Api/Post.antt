-- ===== src/Api/Post.antt =====
-- internal/api/handler/post.go. A handler is given the workspace of the request's context and the
-- values that it reads of the request; `none` is a body that cannot be decoded.
pub mod Publishing
pub mod Creating
pub mod Listing
use Prim.Native.String
use socialpublish.Prelude.{ℕ, String, Option, none, some, List, [], ◌∷◌, Result, ok, err, ℤ}
use socialpublish.Store.Json.{Json}
use socialpublish.Store.Types
use socialpublish.Store.Types.{Time, PostTarget}
use socialpublish.Store.Database.{
  Env, Task, publish_task, Error, wrap, S, ◌>>=◌, ◌>>◌, pure, on_result, error_text,
}
use socialpublish.Store.Posts
use socialpublish.Worker.Publish.{enqueue}
use socialpublish.Api.Http.{
  Response, empty, publishing_body, status_body, post_body, post_page, post_detail, write_json,
  write_error, internal_error,
}

pub record TargetReq : Type 0 where
  pub account_id : String
  pub platform : String
  pub format : String
  pub config : Json

pub record CreatePostRequest : Type 0 where
  pub media_ids : List String
  pub scheduled_at : Option Time
  pub metadata : Json
  pub targets : List TargetReq

-- The status of a new post.
abbrev pub initial_status : Option Time → String
initial_status none = "draft"
initial_status (some t) = "scheduled"

-- `p, _ := h.posts.Get(…)`: the pointer is nil after an error.
abbrev or_nil : {A : Type 0} → Result Error A → Option A
or_nil (ok a) = some a
or_nil (err e) = none

abbrev or_empty : {A : Type 0} → Result Error (List A) → List A
or_empty (ok l) = l
or_empty (err e) = []

module _ (env : Env) where
  -- The loop over the targets of the request.
  unfoldable pub create_targets : String → List TargetReq → S (Result Error (Unit {0}))
  create_targets post_id [] = pure (ok tt)
  create_targets post_id (t ∷ ts) = do
    made ← Posts.create_target env post_id t.account_id t.platform t.format t.config
    on_result made (λ e. pure (err e)) λ _. create_targets post_id ts

  create_request : (workspace_id : String) → CreatePostRequest → S Response
  create_request workspace_id req = do
    created ←
        Posts.create env workspace_id (initial_status req.scheduled_at) req.media_ids
          req.scheduled_at req.metadata
    on_result created
        (λ e. write_error 500 "internal_error" (String.◌++◌ "create post: " (error_text env e)))
        λ p. do
          made ← create_targets p.id req.targets
          on_result made
              (λ e.
                write_error 500 "internal_error" (String.◌++◌ "create target: " (error_text env e)))
              λ _. write_json 201 (post_body (some p))

  unfoldable pub create : (workspace_id : String) → Option CreatePostRequest → S Response
  unfolding create_request create_targets
  create workspace_id none = write_error 400 "validation_error" "invalid request body"
  create workspace_id (some req) = create_request workspace_id req

  -- `limit` is the value that strconv.Atoi returns, whatever its error.
  unfoldable pub list : (workspace_id : String) (limit : ℤ) (cursor : String) → S Response
  list workspace_id limit cursor = do
    listed ← Posts.list env workspace_id limit cursor
    on_result listed (internal_error env) λ (posts, next). write_json 200 (post_page posts next)

  unfoldable pub get : (post_id : String) → S Response
  get post_id = do
    found ← Posts.get env post_id
    on_result found (λ e. write_error 404 "not_found" "post not found")
        λ p. do
          targets ← Posts.list_targets env p.id
          write_json 200 (post_detail p (or_empty targets))

  unfoldable pub update : (post_id : String) → (fields : Option Json) → S Response
  update post_id none = write_error 400 "validation_error" "invalid body"
  update post_id (some fields) = do
    updated ← Posts.update env post_id fields
    on_result updated (internal_error env)
        λ _. do found ← Posts.get env post_id; write_json 200 (post_body (or_nil found))

  unfoldable pub delete : (post_id : String) → S Response
  delete post_id = do
    deleted ← Posts.delete env post_id
    on_result deleted (λ e. write_error 404 "not_found" "post not found") λ _. write_json 204 empty

  -- The loop that enqueues a task for each target; the errors are not looked at.
  unfoldable pub enqueue_targets : (post_id : String) → List PostTarget → S (Unit {0})
  enqueue_targets post_id [] = pure tt
  enqueue_targets post_id (t ∷ ts) = do
    enqueue env "post:publish" (publish_task post_id t.id)
    enqueue_targets post_id ts

  unfoldable pub publish : (post_id : String) → S Response
  unfolding enqueue_targets
  publish post_id = do
    marked ← Posts.set_status env post_id "publishing"
    on_result marked (internal_error env) λ _. do
      listed ← Posts.list_targets env post_id
      on_result listed (internal_error env) λ targets. do
        enqueue_targets post_id targets
        write_json 202 (publishing_body "publishing" post_id)

  unfoldable pub cancel : (post_id : String) → S Response
  cancel post_id = do
    marked ← Posts.set_status env post_id "cancelled"
    on_result marked (internal_error env) λ _. write_json 200 (status_body "cancelled")

  unfoldable pub duplicate : (workspace_id post_id : String) → S Response
  duplicate workspace_id post_id = do
    found ← Posts.get env post_id
    on_result found (λ e. write_error 404 "not_found" "post not found")
        λ orig. do
          created ← Posts.create env workspace_id "draft" orig.media_ids none orig.metadata
          on_result created (internal_error env) λ dup. write_json 201 (post_body (some dup))
