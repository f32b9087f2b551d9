-- ===== src/Api/Tests.antt =====
-- Examples for internal/api.
mod Tenants
use socialpublish.Prelude.{
  ◌+◌, ◌≤◌, true, false, none, some, List, [], ◌∷◌, ◌++◌, All, select, Bytes, codes, ok, ◌≡◌, ◌↔◌,
  refl, arith,
}
use socialpublish.Samples.{
  sample_env, sample_env-IsUp, sample_env-ScansText, sample_world, sample_target,
}
use socialpublish.Store.Json.{object, end}
use socialpublish.Store.Types.{Post, PostTarget, TargetRow}
use socialpublish.Store.Database.{World, publish_task, update_where, exists_row, call, ◌>>=◌}
use socialpublish.Store.Posts
use socialpublish.Store.Posts.{post_is, scan_target, scan_targets}
use socialpublish.Api.Http.{post_body, publishing_body, write_json, empty}
use socialpublish.Api.Post.{CreatePostRequest, create, create_targets, publish}
use socialpublish.Api.Post.Publishing.{publish-up, publish-unpublished, of_post}
use socialpublish.Api.Post.Creating.{AreRowsOf, create-created}
use socialpublish.Api.Middleware.{allow, authenticate, is_expired}
use socialpublish.Api.Middleware.Limits.{after, allow_window, allow_unexpiring}

-- A target that failed after it had been published once.
abbrev read_target : TargetRow
read_target = record sample_target {
  platform_post_id = some "x0";
  permalink = some "";
  failure_reason = some "no";
}

abbrev read_world : World
read_world = record sample_world { targets = read_target ∷ [] }

abbrev target : PostTarget
target = record {
  id = "t1";
  post_id = "p1";
  account_id = "a1";
  platform = "youtube";
  format = "short";
  config = object end;
  status = "pending";
  platform_post_id = "x0";
  permalink = "";
  failure_reason = "no";
  attempt_count = 0;
  last_attempted_at = none;
  published_at = none;
}

scanned : scan_targets sample_env (select (of_post "p1") read_world.targets) ≡ ok (target ∷ [])
unfolding scan_targets scan_target select
scanned = refl

publish-up_example : publish sample_env "p1" read_world ≡ (
  record { status = 202; body = publishing_body "publishing" "p1" },
  record read_world {
    posts =
        update_where
          (post_is "p1")
          (λ p. record p { status = "publishing"; updated_at = sample_env.now 0 })
          read_world.posts;
    queue = publish_task "p1" "t1" ∷ [];
    calls = 3;
  },
)
publish-up_example = publish-up sample_env-IsUp "p1" read_world (target ∷ []) scanned

has_target : exists_row (of_post "p1") sample_world.targets ≡ true
unfolding exists_row
has_target = refl

publish-unpublished_example :
    ((publish sample_env "p1" sample_world).0.status ≡ 500)
    × ((publish sample_env "p1" sample_world).1.queue ≡ [])
publish-unpublished_example =
    publish-unpublished sample_env sample_env-ScansText "p1" sample_world (refl, tt) has_target

abbrev request : CreatePostRequest
request = record {
  media_ids = "m1" ∷ [];
  scheduled_at = none;
  metadata = object end;
  targets =
      record { account_id = "a1"; platform = "youtube"; format = "short"; config = object end }
      ∷ [];
}

created : (create sample_env "acme" (some request) sample_world).0.status ≡ 201
unfolding create create_targets Posts.create Posts.create_target call exists_row ◌>>=◌
created = refl

create-created_example :
    (p : Post) × (rows : List TargetRow) × (p.workspace_id ≡ "acme")
    × (p.status ≡ "draft")
    × (p.media_ids ≡ "m1" ∷ [])
    × (p.scheduled_at ≡ none)
    × (p.metadata ≡ object end)
    × AreRowsOf sample_env p.id request.targets rows
    × ((create sample_env "acme" (some request) sample_world).1.posts
        ≡ sample_world.posts ++ p ∷ [])
    × ((create sample_env "acme" (some request) sample_world).1.targets
        ≡ sample_world.targets ++ rows)
    × ((create sample_env "acme" (some request) sample_world).0.body ≡ post_body (some p))
create-created_example = create-created sample_env "acme" request sample_world created

allow_window_example :
    ((allow true true 20 60 (after 60 (5 ∷ 10 ∷ []) none)).0.allowed ≡ true) ↔ (1 + 2 ≤ 60)
allow_window_example = allow_window 60 5 20 (10 ∷ []) (omega arith, tt) (omega arith)

-- Three requests against a limit of two: a day later the third is refused still.
allow_unexpiring_example :
    ((allow true true 86400000000000 2 (after 2 (10 ∷ []) (allow true false 5 2 none).1)).0.allowed
      ≡ true)
    ↔ (1 + 2 ≤ 2)
allow_unexpiring_example = allow_unexpiring 2 5 86400000000000 (10 ∷ [])
