-- ===== src/Wire/Tests/Updated.antt =====
-- An example for updates of posts.
use socialpublish.Prelude.{String, none, some, [], ◌∷◌, ok, ◌≡◌, ◌≢◌, refl, ℕ}
use socialpublish.Samples.{sample_env, sample_env-IsUp, sample_world, sample_post}
use socialpublish.Store.Json.{object, end}
use socialpublish.Store.Database.{one_row}
use socialpublish.Store.Posts.{post_is}
use socialpublish.Api.Http.{post_body}
use socialpublish.Api.Post
use socialpublish.Wire.Seen.{post_of}
use socialpublish.Wire.Updated.{PlannedUpdate, update_fields, joined, update_joined}
use socialpublish.Wire.Tests.{times, chars}

abbrev float_text : ℕ → String
float_text n = "0.5"

abbrev rescheduled : PlannedUpdate
rescheduled = record {
  media_ids = "m1" ∷ [];
  targets = [];
  scheduled_at = some 7200000000000;
  metadata = [];
}

found : one_row (post_is "p1") sample_world.posts ≡ ok sample_post
unfolding one_row
found = refl

update_joined_example :
    ((Post.update sample_env "p1"
        (some (object (update_fields float_text times rescheduled)))
        sample_world).0
      ≡ record {
        status = 200;
        body = post_body (
            some (
              joined sample_env-IsUp "p1" sample_world sample_post end found refl times chars
                float_text rescheduled));
      })
    × (rescheduled.media_ids ≢ []
        → post_of times chars (
            post_body (
              some (
                joined sample_env-IsUp "p1" sample_world sample_post end found refl times chars
                  float_text rescheduled)))
          ≡ none)
update_joined_example =
    update_joined sample_env-IsUp "p1" sample_world sample_post end found refl times chars
      float_text rescheduled
