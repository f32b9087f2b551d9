-- ===== src/Wire/Seen.antt =====
-- What the SDK sees of the answers of the post handlers: sdk/services/post/types.go behind
-- internal/api/handler/post.go.
use socialpublish.Prelude.{String, List, [], ◌∷◌, map, Option, none, some, ◌≡◌, refl, Bytes}
use socialpublish.Store.Types.{PostTarget}
use socialpublish.Store.Types
use socialpublish.Api.Http.{Body, post_body, post_detail, publishing_body, status_body}
use socialpublish.Sdk.Post.{Post, TargetStatus}
use socialpublish.Sdk.Posts.{no_post}
use socialpublish.Wire.Values.{TimeText, as_text_map, items_of, read_items}
use socialpublish.Wire.Answers.{body_json, post_json, target_json}
use socialpublish.Wire.Reads.{read_post, read_target_status, no_target_status}

-- What is left of a target.
pub seen_target : PostTarget → TargetStatus
seen_target t = record no_target_status {
  platform = t.platform;
  status = t.status;
  permalink = t.permalink;
}

module _ (times : TimeText) where
  -- An answer of a post handler, read as the SDK reads it.
  abbrev pub post_of : (Bytes → String) → Body → Option Post
  post_of chars b = elim (body_json times chars b) [
    | none ↦ none
    | some j ↦ read_post times j no_post
  ]

  pub read_post-post_json :
      (p : Types.Post) (metadata : List (String × String))
      → as_text_map p.metadata ≡ some metadata
      → read_post times (post_json times p) no_post
        ≡ some (record no_post { status = p.status; metadata = metadata })
  unfolding read_post post_json
  read_post-post_json p metadata h = cc

  read_target_status-target_json :
      (t : PostTarget)
      → read_target_status times (target_json times t) no_target_status ≡ some (seen_target t)
  unfolding read_target_status target_json seen_target
  read_target_status-target_json t = refl

  read_items-items_of :
      (ts : List PostTarget)
      → read_items (read_target_status times) no_target_status (items_of (target_json times) ts)
        ≡ some (map seen_target ts)
  unfolding read_items items_of
  read_items-items_of [] = refl
  read_items-items_of (t ∷ ts) = cc (read_target_status-target_json t, read_items-items_of ts)

  read_post-post_detail :
      (chars : Bytes → String) (p : Types.Post) (ts : List PostTarget)
      → post_of chars (post_detail p ts) ≡ some (record no_post { targets = map seen_target ts })
  unfolding body_json read_post
  read_post-post_detail chars p ts = let h = read_items-items_of ts in cc

  -- Of the posts that the handlers answer, the SDK sees this: of a stored post the status and the
  -- metadata, if these are texts, and neither the identifier nor the media, the targets or the times;
  -- of a post with its targets only the platform, the status and the permalink of each target; of the
  -- answer of Publish the identifier and the status; of that of Cancel the status.
  pub posts_seen :
      (chars : Bytes → String) (p : Types.Post) (ts : List PostTarget)
      (metadata : List (String × String)) (post_id status : String)
      → as_text_map p.metadata ≡ some metadata
      → (post_of chars (post_body (some p))
          ≡ some (record no_post { status = p.status; metadata = metadata }))
        × (post_of chars (post_detail p ts)
            ≡ some (record no_post { targets = map seen_target ts }))
        × (post_of chars (publishing_body status post_id)
            ≡ some (record no_post { id = post_id; status = status }))
        × (post_of chars (status_body status) ≡ some (record no_post { status = status }))
  unfolding body_json read_post
  posts_seen chars p ts metadata post_id status h =
      (read_post-post_json p metadata h, read_post-post_detail chars p ts, refl, refl)
