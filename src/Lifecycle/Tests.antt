-- ===== src/Lifecycle/Tests.antt =====
-- Examples for the life of posts and targets.
use socialpublish.Prelude.{none, some, [], refl, inl}
use socialpublish.Samples.{sample_env, sample_env-ScansText, sample_world}
use socialpublish.Store.Database.{World}
use socialpublish.Store.Tokens.{Crypto}
use socialpublish.Platform.Registry.{Registry, new_registry}
use socialpublish.Api.Post
use socialpublish.Worker.Publish.{process_publish}
use socialpublish.Lifecycle.Status.{IsEarly}
use socialpublish.Lifecycle.Steps.{Reach, here, next, publish_post, cancel_post, run_publish_task}
use socialpublish.Lifecycle.Statuses.{Reach-IsEarly}

abbrev crypto : Crypto
crypto = record { new_gcm = λ key. none; random = λ n size. none }

abbrev adapters : Registry
adapters = new_registry []

-- The draft is published, its task runs, and it is cancelled.
abbrev published : World
published = (Post.publish sample_env "p1" sample_world).1

abbrev tried : World
tried =
    (process_publish sample_env crypto [] adapters
      (some (record { post_id = "p1"; target_id = "t1" })) published).1

abbrev cancelled : World
cancelled = (Post.cancel sample_env "p1" tried).1

sample_world-IsEarly : IsEarly sample_world
sample_world-IsEarly = ((inl refl, tt), ((refl, refl), tt))

to_cancelled : Reach sample_env crypto [] adapters sample_world cancelled
to_cancelled =
    next
      (next (next here (publish_post sample_world "p1"))
        (run_publish_task published (some (record { post_id = "p1"; target_id = "t1" }))))
      (cancel_post tried "p1")

Reach-IsEarly_example : IsEarly cancelled
Reach-IsEarly_example =
    Reach-IsEarly sample_env sample_env-ScansText crypto [] adapters sample_world-IsEarly
      to_cancelled
