-- ===== src/Wire/Reads.antt =====
-- What the SDK reads of an answer: the tags of sdk/services/post/types.go and of the body of an error
-- in handleResponse of sdk/transport.go.
use socialpublish.Prelude.{[], ◌∷◌, Option, none, pos}
use socialpublish.Store.Json.{Json, null, as_map}
use socialpublish.Transport.Retry.{ErrorBody}
use socialpublish.Sdk.Post.{Post, TargetStatus}
use socialpublish.Sdk.Posts.{Page, no_post}
use socialpublish.Wire.Values.{
  TimeText, plain, nullable, as_text, as_boolean, as_int, as_time, as_pointer, as_slice, into_text,
  as_text_map, read_struct,
}

abbrev pub no_target_status : TargetStatus
no_target_status = record {
  account_id = "";
  platform = "";
  status = "";
  platform_post_id = "";
  permalink = "";
  published_at = none;
  failure_reason = "";
  attempt_count = pos 0;
}

abbrev pub no_error_body : ErrorBody
no_error_body = record { code = ""; message = ""; platform = ""; detail = null }

unfoldable pub read_error_body : Json → ErrorBody → Option ErrorBody
unfolding read_struct as_map
read_error_body = read_struct (
    ("code", plain as_text λ s b. record b { code = s })
    ∷ ("message", plain as_text λ s b. record b { message = s })
    ∷ ("platform", plain as_text λ s b. record b { platform = s })
    ∷ ("detail", nullable as_map λ m b. record b { detail = m })
    ∷ [])

module _ (times : TimeText) where
  unfoldable pub read_target_status : Json → TargetStatus → Option TargetStatus
  unfolding read_struct
  read_target_status = read_struct (
      ("account_id", plain as_text λ s t. record t { account_id = s })
      ∷ ("platform", plain as_text λ s t. record t { platform = s })
      ∷ ("status", plain as_text λ s t. record t { status = s })
      ∷ ("platform_post_id", plain as_text λ s t. record t { platform_post_id = s })
      ∷ ("permalink", plain as_text λ s t. record t { permalink = s })
      ∷ ("published_at", nullable (as_pointer (as_time times)) λ p t. record t { published_at = p })
      ∷ ("failure_reason", plain as_text λ s t. record t { failure_reason = s })
      ∷ ("attempt_count", plain as_int λ n t. record t { attempt_count = n })
      ∷ [])

  unfoldable pub read_post : Json → Post → Option Post
  unfolding read_target_status read_struct as_slice as_text_map
  read_post = read_struct (
      ("post_id", plain as_text λ s p. record p { id = s })
      ∷ ("status", plain as_text λ s p. record p { status = s })
      ∷ ("media_ids", nullable (as_slice into_text "") λ l p. record p { media_ids = l })
      ∷ (
        "targets",
        nullable (as_slice read_target_status no_target_status) λ l p. record p { targets = l },
      )
      ∷ ("scheduled_at", nullable (as_pointer (as_time times)) λ t p. record p { scheduled_at = t })
      ∷ ("published_at", nullable (as_pointer (as_time times)) λ t p. record p { published_at = t })
      ∷ ("metadata", nullable as_text_map λ m p. record p { metadata = m })
      ∷ ("created_at", plain (as_time times) λ t p. record p { created_at = t })
      ∷ ("updated_at", plain (as_time times) λ t p. record p { updated_at = t })
      ∷ [])

  -- The items are pointers; a null among them is not told from a zero value.
  unfoldable pub read_page : Json → Page → Option Page
  unfolding read_post as_slice
  read_page = read_struct (
      ("items", nullable (as_slice read_post no_post) λ l p. record p { items = l })
      ∷ ("next_cursor", plain as_text λ s p. record p { next_cursor = s })
      ∷ ("has_more", plain as_boolean λ b p. record p { has_more = b })
      ∷ ("total", plain as_int λ n p. record p { total = n })
      ∷ [])
