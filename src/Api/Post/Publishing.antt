-- ===== src/Api/Post/Publishing.antt =====
-- internal/api/handler/post.go: PostHandler.Publish.
use socialpublish.Prelude.{
  ℕ, suc, ◌+◌, String, Bool, true, List, [], ◌∷◌, ◌++◌, append_assoc, append-nil, map, length,
  select, str_eq, All, Result, ok, err, Bool-cases, Option-cases, inl, inr, ◌≡◌, refl, ap, ◌∙◌,
  arith,
}
use socialpublish.Store.Types.{PostTarget, TargetRow}
use socialpublish.Store.Database.{
  World, Env, IsUp, ScansText, Task, publish_task, Error, ◌>>=◌, query, update_where, exists_row,
  collect_rows,
}
use socialpublish.Store.Database.Rows.{collect_rows-up, query-up}
use socialpublish.Store.Posts
use socialpublish.Store.Posts.{post_is, scan_targets}
use socialpublish.Store.Posts.Laws.{IsUnpublished, scan_target-unpublished}
use socialpublish.Worker.Publish.{enqueue}
use socialpublish.Api.Http.{publishing_body}
use socialpublish.Api.Post.{enqueue_targets, publish}

abbrev pub task_of : String → PostTarget → Task
task_of post_id t = publish_task post_id t.id

abbrev pub of_post : String → TargetRow → Bool
of_post post_id t = str_eq t.post_id post_id

module _ {env : Env} (up : IsUp env) (post_id : String) where
  enqueue-up :
      (task_type : String) (task : Task) (w : World)
      → enqueue env task_type task w
        ≡ (ok tt, record w { queue = w.queue ++ task ∷ []; calls = suc w.calls })
  unfolding enqueue
  enqueue-up task_type task w = query-up up _ _ w

  enqueue_targets-up :
      (ts : List PostTarget) (w : World)
      → (enqueue_targets env post_id ts w).1
        ≡ record w { queue = w.queue ++ map (task_of post_id) ts; calls = w.calls + length ts }
  unfolding enqueue_targets ◌>>=◌ enqueue query
  enqueue_targets-up [] w =
      rw (append-nil w.queue) (ap (λ (c : ℕ). record w { calls = c }) (ground arith))
  enqueue_targets-up (t ∷ ts) w =
      let queued = record w { queue = w.queue ++ task_of post_id t ∷ []; calls = suc w.calls } in
      ap (λ (r : Result Error (Unit {0}) × World). (enqueue_targets env post_id ts r.1).1)
        (enqueue-up "post:publish" (task_of post_id t) w)
      ∙ enqueue_targets-up ts queued
      ∙ rw (append_assoc w.queue (task_of post_id t ∷ []) (map (task_of post_id) ts)) (
          ap (λ (c : ℕ). record w { queue = w.queue ++ map (task_of post_id) (t ∷ ts); calls = c })
            (ground arith))

  -- If the database and the queue answer and the targets of the post can be read: Publish marks
  -- the post as publishing and enqueues one task for each of its targets, in their order, behind
  -- what is queued.
  pub publish-up :
      (w : World) (targets : List PostTarget)
      → scan_targets env (select (of_post post_id) w.targets) ≡ ok targets
      → publish env post_id w ≡ (
        record { status = 202; body = publishing_body "publishing" post_id },
        record w {
          posts =
              update_where
                (post_is post_id)
                (λ p. record p { status = "publishing"; updated_at = env.now w.calls })
                w.posts;
          queue = w.queue ++ map (task_of post_id) targets;
          calls = suc (suc w.calls) + length targets;
        },
      )
  unfolding publish ◌>>=◌ Posts.set_status Posts.list_targets query
  publish-up w targets h =
      rw
        (
          up.answers w.calls,
          up.answers (suc w.calls),
          collect_rows-up up (suc w.calls) (select (of_post post_id) w.targets),
          h,
          enqueue_targets-up targets _,
        )
        refl

module _ (env : Env) (scans : ScansText env) (post_id : String) where
  scan_targets-unpublished :
      (ts : List TargetRow)
      → All IsUnpublished ts
      → exists_row (of_post post_id) ts ≡ true
      → (e : Error) × (scan_targets env (select (of_post post_id) ts) ≡ err e)
  unfolding exists_row select scan_targets
  scan_targets-unpublished [] h e = absurd (cc)
  scan_targets-unpublished (t ∷ ts) (u, h) e = elim (Bool-cases (of_post post_id t)) [
    | inl here ↦ (Error.bad_column, ground (arith, scan_target-unpublished env scans t u))
    | inr later ↦ rw later (scan_targets-unpublished ts h (ground arith))
  ]

  -- With pgx refusing NULL for a string: a post that has a target, where no target has a platform
  -- post yet, cannot be published; the request is answered by 500 and enqueues nothing.
  pub publish-unpublished :
      (w : World)
      → All IsUnpublished w.targets
      → exists_row (of_post post_id) w.targets ≡ true
      → ((publish env post_id w).0.status ≡ 500) × ((publish env post_id w).1.queue ≡ w.queue)
  unfolding publish ◌>>=◌ Posts.set_status Posts.list_targets query collect_rows
  publish-unpublished w h e =
      let (x, unreadable) = scan_targets-unpublished w.targets h e in
      elim (Bool-cases (env.fails w.calls)) [
        | inl a ↦ rw a (refl, refl)
        | inr a ↦ elim (Bool-cases (env.fails (suc w.calls))) [
          | inl b ↦ rw (a, b) (refl, refl)
          | inr b ↦ elim (Option-cases (env.broken (suc w.calls))) [
            | inl c ↦ rw (a, b, c, unreadable) (refl, refl)
            | inr (k, c) ↦ rw (a, b, c) (refl, refl)
          ]
        ]
      ]
