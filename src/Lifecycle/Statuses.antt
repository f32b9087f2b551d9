-- ===== src/Lifecycle/Statuses.antt =====
-- Which statuses posts and targets have after any steps.
use socialpublish.Prelude.{String, Option, none, some, List, [], ◌∷◌, All, Bytes, ℤ, refl, inl, inr}
use socialpublish.Store.Types.{TargetRow, PostTarget}
use socialpublish.Store.Json.{Json}
use socialpublish.Store.Database.{World, Env, ScansText, publish_task, ◌>>=◌}
use socialpublish.Store.Tokens.{Crypto}
use socialpublish.Store.Posts.Laws.{IsUnpublished, get_target-unpublished}
use socialpublish.Platform.Registry.{Registry}
use socialpublish.Worker.Publish.{PublishPayload, process_publish}
use socialpublish.Api.Post
use socialpublish.Api.Post.{CreatePostRequest, enqueue_targets}
use socialpublish.Api.Schedule
use socialpublish.Lifecycle.Steps.{
  Step, create_post, list_posts, get_post, update_post, delete_post, publish_post, cancel_post,
  duplicate_post, run_publish_task, show_queue, Reach, here, next,
}
use socialpublish.Lifecycle.Keeps.{Keeps, Keeps-bind, Keeps-pure}
use socialpublish.Lifecycle.Status.{
  IsEarly, IsPending, IsServerStatus, HasServerStatus, early, create_post-IsEarly, enqueue-IsEarly,
}

module _ (env : Env) where
  list_posts-IsEarly :
      (workspace_id : String) (limit : ℤ) (cursor : String)
      → Keeps HasServerStatus IsPending (Post.list env workspace_id limit cursor)
  unfolding Post.list
  list_posts-IsEarly workspace_id limit cursor = search early

  get_post-IsEarly : (post_id : String) → Keeps HasServerStatus IsPending (Post.get env post_id)
  unfolding Post.get
  get_post-IsEarly post_id = search early

  update_post-IsEarly :
      (post_id : String) (fields : Option Json)
      → Keeps HasServerStatus IsPending (Post.update env post_id fields)
  unfolding Post.update
  update_post-IsEarly post_id none = search early
  update_post-IsEarly post_id (some fields) = search early

  delete_post-IsEarly :
      (post_id : String) → Keeps HasServerStatus IsPending (Post.delete env post_id)
  unfolding Post.delete
  delete_post-IsEarly post_id = search early

  enqueue_targets-IsEarly :
      (post_id : String) (ts : List PostTarget)
      → Keeps HasServerStatus IsPending (enqueue_targets env post_id ts)
  unfolding enqueue_targets
  enqueue_targets-IsEarly post_id [] = Keeps-pure tt
  enqueue_targets-IsEarly post_id (t ∷ ts) =
      Keeps-bind _ _ (enqueue-IsEarly env "post:publish" (publish_task post_id t.id))
        λ _. enqueue_targets-IsEarly post_id ts

  publish_post-IsEarly :
      (post_id : String) → Keeps HasServerStatus IsPending (Post.publish env post_id)
  unfolding Post.publish
  publish_post-IsEarly post_id =
      let publishing : IsServerStatus "publishing" = inr (inr (inl refl)) in
      search (early, enqueue_targets-IsEarly, publishing) depth 9

  cancel_post-IsEarly :
      (post_id : String) → Keeps HasServerStatus IsPending (Post.cancel env post_id)
  unfolding Post.cancel
  cancel_post-IsEarly post_id =
      let cancelled : IsServerStatus "cancelled" = inr (inr (inr refl)) in search (early, cancelled)

  duplicate_post-IsEarly :
      (workspace_id post_id : String)
      → Keeps HasServerStatus IsPending (Post.duplicate env workspace_id post_id)
  unfolding Post.duplicate
  duplicate_post-IsEarly workspace_id post_id =
      let draft : IsServerStatus "draft" = inl refl in search (early, draft)

  show_queue-IsEarly :
      (workspace_id : String) → Keeps HasServerStatus IsPending (Schedule.queue env workspace_id)
  unfolding Schedule.queue
  show_queue-IsEarly workspace_id = search early

All-IsUnpublished : (ts : List TargetRow) → All IsPending ts → All IsUnpublished ts
All-IsUnpublished [] h = tt
All-IsUnpublished (t ∷ ts) (p, h) = (p.1, All-IsUnpublished ts h)

module _ (env : Env) (scans : ScansText env) (crypto : Crypto) (key : Bytes)
    (adapters : Registry) where
  process_publish-IsEarly :
      (payload : Option PublishPayload)
      → Keeps HasServerStatus IsPending (process_publish env crypto key adapters payload)
  unfolding process_publish ◌>>=◌
  process_publish-IsEarly none = Keeps-pure _
  process_publish-IsEarly (some payload) = record {
    at = λ w h.
        let (e, failed) =
          get_target-unpublished env scans payload.target_id w (All-IsUnpublished w.targets h.1) in
        rw (failed) h;
  }

  Step-IsEarly : {w w' : World} → Step env crypto key adapters w w' → IsEarly w → IsEarly w'
  Step-IsEarly (create_post w workspace_id req) = (create_post-IsEarly env workspace_id req).at w
  Step-IsEarly (list_posts w workspace_id limit cursor) =
      (list_posts-IsEarly env workspace_id limit cursor).at w
  Step-IsEarly (get_post w post_id) = (get_post-IsEarly env post_id).at w
  Step-IsEarly (update_post w post_id fields) = (update_post-IsEarly env post_id fields).at w
  Step-IsEarly (delete_post w post_id) = (delete_post-IsEarly env post_id).at w
  Step-IsEarly (publish_post w post_id) = (publish_post-IsEarly env post_id).at w
  Step-IsEarly (cancel_post w post_id) = (cancel_post-IsEarly env post_id).at w
  Step-IsEarly (duplicate_post w workspace_id post_id) =
      (duplicate_post-IsEarly env workspace_id post_id).at w
  Step-IsEarly (run_publish_task w payload) = (process_publish-IsEarly payload).at w
  Step-IsEarly (show_queue w workspace_id) = (show_queue-IsEarly env workspace_id).at w

  -- With pgx refusing NULL for a string: whatever post and queue requests and publish tasks are run,
  -- in any order and with any failures, every post has the status draft, scheduled, publishing or
  -- cancelled, and every target is pending and without a platform post, if it was so at the start.
  pub Reach-IsEarly :
      {start w : World} → IsEarly start → Reach env crypto key adapters start w → IsEarly w
  Reach-IsEarly h here = h
  Reach-IsEarly h (next before step) = Step-IsEarly step (Reach-IsEarly h before)
