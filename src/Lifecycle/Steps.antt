-- ===== src/Lifecycle/Steps.antt =====
-- The steps that the handlers of internal/api/handler/post.go and internal/api/handler/schedule.go
-- and the tasks of internal/worker/publish.go make on the database and the queue.
use socialpublish.Prelude.{String, Option, ℤ, Bytes}
use socialpublish.Store.Json.{Json}
use socialpublish.Store.Database.{World, Env}
use socialpublish.Store.Tokens.{Crypto}
use socialpublish.Platform.Registry.{Registry}
use socialpublish.Worker.Publish.{PublishPayload, process_publish}
use socialpublish.Api.Post
use socialpublish.Api.Post.{CreatePostRequest}
use socialpublish.Api.Schedule

-- One request or one task, run to its end.
pub data Step (env : Env) (crypto : Crypto) (key : Bytes) (adapters : Registry)
    : World → World → Type 0 where
  create_post :
      (w : World) (workspace_id : String) (req : Option CreatePostRequest)
      → Step env crypto key adapters w (Post.create env workspace_id req w).1
  list_posts :
      (w : World) (workspace_id : String) (limit : ℤ) (cursor : String)
      → Step env crypto key adapters w (Post.list env workspace_id limit cursor w).1
  get_post :
      (w : World) (post_id : String) → Step env crypto key adapters w (Post.get env post_id w).1
  update_post :
      (w : World) (post_id : String) (fields : Option Json)
      → Step env crypto key adapters w (Post.update env post_id fields w).1
  delete_post :
      (w : World) (post_id : String) → Step env crypto key adapters w (Post.delete env post_id w).1
  publish_post :
      (w : World) (post_id : String) → Step env crypto key adapters w (Post.publish env post_id w).1
  cancel_post :
      (w : World) (post_id : String) → Step env crypto key adapters w (Post.cancel env post_id w).1
  duplicate_post :
      (w : World) (workspace_id post_id : String)
      → Step env crypto key adapters w (Post.duplicate env workspace_id post_id w).1
  run_publish_task :
      (w : World) (payload : Option PublishPayload)
      → Step env crypto key adapters w (process_publish env crypto key adapters payload w).1
  show_queue :
      (w : World) (workspace_id : String)
      → Step env crypto key adapters w (Schedule.queue env workspace_id w).1

pub data Reach (env : Env) (crypto : Crypto) (key : Bytes) (adapters : Registry) (start : World)
    : World → Type 0 where
  here : Reach env crypto key adapters start start
  next :
      {w w' : World}
      → Reach env crypto key adapters start w
      → Step env crypto key adapters w w'
      → Reach env crypto key adapters start w'
