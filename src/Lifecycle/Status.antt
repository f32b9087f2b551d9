-- ===== src/Lifecycle/Status.antt =====
-- Which statuses posts and targets ever have.
use socialpublish.Prelude.{
  String, Option, none, some, List, [], ◌∷◌, All-append, Bool-cases, inl, inr, ◌⊎◌, ◌≡◌, refl, ℤ,
  str_eq, ◌&&◌,
}
use socialpublish.Store.Types.{Post, TargetRow, Account, Workspace, Time}
use socialpublish.Store.Json.{Json}
use socialpublish.Worker.Publish.{enqueue}
use socialpublish.Api.Post
use socialpublish.Api.Post.{
  TargetReq, CreatePostRequest, initial_status, create_targets, enqueue_targets,
}
use socialpublish.Store.Database.{World, Env, Task, exists_row}
use socialpublish.Store.Posts.Laws.{IsUnpublished}
use socialpublish.Store.Posts
use socialpublish.Lifecycle.Keeps.{
  Rows, Keeps, Keeps-bind, Keeps-pure, Keeps-on_result, Keeps-query, Keeps-call, Keeps-outside,
  keeps_rules,
}
use socialpublish.Store.Database.Rows.{All-update_where, All-select}

-- The statuses that the server's own code gives to a post.
abbrev pub IsServerStatus : String → Type 0
IsServerStatus s = (s ≡ "draft") ⊎ (s ≡ "scheduled") ⊎ (s ≡ "publishing") ⊎ (s ≡ "cancelled")

abbrev pub HasServerStatus : Post → Type 0
HasServerStatus p = IsServerStatus p.status

-- A target as it was inserted, as far as its outcome goes.
abbrev pub IsPending : TargetRow → Type 0
IsPending t = (t.status ≡ "pending") × IsUnpublished t

abbrev pub IsEarly : World → Type 0
IsEarly = Rows HasServerStatus IsPending

module _ (env : Env) where
  pub set_status-IsEarly :
      (post_id status : String)
      → IsServerStatus status
      → Keeps HasServerStatus IsPending (Posts.set_status env post_id status)
  unfolding Posts.set_status
  set_status-IsEarly post_id status known =
      Keeps-query env _ _
        λ n w h. (All-update_where HasServerStatus _ _ w.posts (λ p q. known) h.0, h.1)

  pub get-IsEarly : (post_id : String) → Keeps HasServerStatus IsPending (Posts.get env post_id)
  unfolding Posts.get
  get-IsEarly post_id = Keeps-query env _ _ λ n w h. h

  pub list-IsEarly :
      (workspace_id : String) (limit : ℤ) (cursor : String)
      → Keeps HasServerStatus IsPending (Posts.list env workspace_id limit cursor)
  unfolding Posts.list
  list-IsEarly workspace_id limit cursor = Keeps-query env _ _ λ n w h. h

  pub list_targets-IsEarly :
      (post_id : String) → Keeps HasServerStatus IsPending (Posts.list_targets env post_id)
  unfolding Posts.list_targets
  list_targets-IsEarly post_id = Keeps-query env _ _ λ n w h. h

  pub update-IsEarly :
      (post_id : String) (fields : Json)
      → Keeps HasServerStatus IsPending (Posts.update env post_id fields)
  unfolding Posts.update
  update-IsEarly post_id fields =
      Keeps-query env _ _
        λ n w h. (All-update_where HasServerStatus _ _ w.posts (λ p q. q) h.0, h.1)

  pub delete-IsEarly :
      (post_id : String) → Keeps HasServerStatus IsPending (Posts.delete env post_id)
  unfolding Posts.delete
  delete-IsEarly post_id = Keeps-query env _ _ λ n w h.
      elim (Bool-cases (exists_row (Posts.post_is post_id) w.posts)) [
        | inl e ↦
            rw e (All-select HasServerStatus _ w.posts h.0, All-select IsPending _ w.targets h.1)
        | inr e ↦ rw e h
      ]

  pub create-IsEarly :
      (workspace_id : String) (media_ids : List String) (scheduled_at : Option Time)
      (metadata : Json) (status : String)
      → IsServerStatus status
      → Keeps HasServerStatus IsPending
          (Posts.create env workspace_id status media_ids scheduled_at metadata)
  unfolding Posts.create
  create-IsEarly workspace_id media_ids scheduled_at metadata status known =
      Keeps-call env _ λ n w h.
        elim (Bool-cases
          (exists_row (λ (ws : Workspace). str_eq ws.id workspace_id) w.workspaces)) [
            | inl e ↦ rw e (All-append HasServerStatus w.posts _ h.0 (known, tt), h.1)
            | inr e ↦ rw e h
          ]

  pub create_target-IsEarly :
      (post_id account_id platform format : String) (config : Json)
      → Keeps HasServerStatus IsPending
          (Posts.create_target env post_id account_id platform format config)
  unfolding Posts.create_target
  create_target-IsEarly post_id account_id platform format config = Keeps-call env _ λ n w h.
      elim (Bool-cases (
        exists_row (Posts.post_is post_id) w.posts
        && exists_row (λ (a : Account). str_eq a.id account_id) w.accounts)) [
          | inl e ↦ rw e (h.0, All-append IsPending w.targets _ h.1 ((refl, refl), tt))
          | inr e ↦ rw e h
        ]

  pub enqueue-IsEarly :
      (task_type : String) (task : Task)
      → Keeps HasServerStatus IsPending (enqueue env task_type task)
  unfolding enqueue
  enqueue-IsEarly task_type task = Keeps-query env _ _ λ n w h. h

  pub ruleset early = (
    keeps_rules, set_status-IsEarly, get-IsEarly, list-IsEarly, list_targets-IsEarly,
    update-IsEarly, delete-IsEarly, create-IsEarly, create_target-IsEarly, enqueue-IsEarly,
  )

  -- The handlers.
  pub create_targets-IsEarly :
      (post_id : String) (ts : List TargetReq)
      → Keeps HasServerStatus IsPending (create_targets env post_id ts)
  unfolding create_targets
  create_targets-IsEarly post_id [] = search early
  create_targets-IsEarly post_id (t ∷ ts) =
      Keeps-bind _ _ (create_target-IsEarly post_id t.account_id t.platform t.format t.config)
        λ made.
          Keeps-on_result made _ _ (λ e. Keeps-pure _) (λ _. create_targets-IsEarly post_id ts)

  initial_status-known : (scheduled_at : Option Time) → IsServerStatus (initial_status scheduled_at)
  initial_status-known none = inl refl
  initial_status-known (some t) = inr (inl refl)

  pub create_post-IsEarly :
      (workspace_id : String) (req : Option CreatePostRequest)
      → Keeps HasServerStatus IsPending (Post.create env workspace_id req)
  unfolding Post.create
  create_post-IsEarly workspace_id none = search early
  create_post-IsEarly workspace_id (some req) =
      search (early, create_targets-IsEarly, initial_status-known)
