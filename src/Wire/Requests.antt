-- ===== src/Wire/Requests.antt =====
-- The request of Create as JSON: json.Marshal of CreateRequest of sdk/services/post/types.go, with the
-- configurations behind its pointers, and decodeBody of createPostRequest of
-- internal/api/handler/post.go.
use socialpublish.Prelude.{
  String, Bool, true, false, not, Option, none, some, List, [], ◌∷◌, is_empty, str_eq, ℤ, pos, ◌==◌,
  ℕ,
}
use socialpublish.GoText.Print.{strconv_itoa}
use socialpublish.Store.Json.{Json, null, boolean, number, text, object, as_map}
use socialpublish.Sdk.Post.{InstagramConfig, YoutubeConfig}
use socialpublish.Sdk.Builder.{StringMap}
use socialpublish.Sdk.Builder.Plan.{PlannedTarget, Request}
use socialpublish.Api.Post.{TargetReq, CreatePostRequest}
use socialpublish.Wire.Values.{
  TimeText, plain, nullable, as_text, as_time, as_pointer, as_slice, into_text, read_struct, slice,
  pointer, struct, fields_of, items_of, text_fields, unless,
}

abbrev pub is_none : {A : Type 0} → Option A → Bool
is_none none = true
is_none (some a) = false

abbrev is_zero : ℤ → Bool
is_zero (pos n) = n == 0
is_zero _ = false

-- A text field with omitempty.
abbrev unless_empty : (name value : String) → List (String × Json) → List (String × Json)
unless_empty name value = unless (str_eq value "") (name, text value)

-- A slice with omitempty.
abbrev pub unless_nil : (name : String) → List String → List (String × Json) → List (String × Json)
unless_nil name l = unless (is_empty l) (name, slice text l)

-- `float_text` is the number of a float64, which the model keeps as its bit pattern.
module _ (float_text : ℕ → String) where
  unfoldable pub instagram_json : InstagramConfig → Json
  unfolding fields_of items_of
  instagram_json c = struct (
      ("format", text c.format)
      ∷ unless_empty "caption" c.caption (
          unless (is_none c.cover_timestamp_secs)
            ("cover_timestamp_secs", pointer (λ n. number (float_text n)) c.cover_timestamp_secs)
            (unless_nil "collaborators" c.collaborators (
              unless_empty "location_id" c.location_id (
                unless (is_none c.share_to_feed) ("share_to_feed", pointer boolean c.share_to_feed)
                  [])))))

unfoldable pub youtube_json : YoutubeConfig → Json
unfolding fields_of items_of
youtube_json c = struct (
    ("format", text c.format)
    ∷ ("title", text c.title)
    ∷ unless_empty "description" c.description (
        unless_nil "tags" c.tags (
          ("privacy", text c.privacy)
          ∷ unless (is_zero c.category_id) ("category_id", number (strconv_itoa c.category_id))
              (unless_nil "playlist_ids" c.playlist_ids (
                ("made_for_kids", boolean c.made_for_kids)
                ∷ ("notify_subscribers", boolean c.notify_subscribers)
                ∷ [])))))

abbrev pub or_no_map : Option StringMap → StringMap
or_no_map none = []
or_no_map (some m) = m

module _ (float_text : ℕ → String) where
  unfoldable pub planned_target_json : PlannedTarget → Json
  unfolding fields_of instagram_json youtube_json
  planned_target_json t = struct (
      ("account_id", text t.account_id)
      ∷ ("platform", text t.platform)
      ∷ unless (is_none t.instagram) ("instagram", pointer (instagram_json float_text) t.instagram)
          (unless (is_none t.youtube) ("youtube", pointer youtube_json t.youtube) []))

module _ (float_text : ℕ → String) (times : TimeText) where
  unfoldable pub request_json : Request → Json
  unfolding fields_of items_of text_fields planned_target_json
  request_json r = struct (
      ("media_ids", slice text r.media_ids)
      ∷ ("targets", slice (planned_target_json float_text) r.targets)
      ∷ unless (is_none r.scheduled_at)
          ("scheduled_at", pointer (λ t. text (times.print t)) r.scheduled_at)
          (unless (not r.publish_immediately) ("publish_immediately", boolean true)
            (unless (is_empty (or_no_map r.metadata))
              ("metadata", object (text_fields (or_no_map r.metadata))) [])))

abbrev pub no_target_req : TargetReq
no_target_req = record { account_id = ""; platform = ""; format = ""; config = null }

abbrev pub no_create_request : CreatePostRequest
no_create_request = record { media_ids = []; scheduled_at = none; metadata = null; targets = [] }

unfoldable pub read_target_req : Json → TargetReq → Option TargetReq
unfolding read_struct as_map
read_target_req = read_struct (
    ("account_id", plain as_text λ s t. record t { account_id = s })
    ∷ ("platform", plain as_text λ s t. record t { platform = s })
    ∷ ("format", plain as_text λ s t. record t { format = s })
    ∷ ("config", nullable as_map λ m t. record t { config = m })
    ∷ [])

module _ (times : TimeText) where
  unfoldable pub read_create_request : Json → CreatePostRequest → Option CreatePostRequest
  unfolding read_target_req read_struct as_slice as_map
  read_create_request = read_struct (
      ("media_ids", nullable (as_slice into_text "") λ l r. record r { media_ids = l })
      ∷ ("scheduled_at", nullable (as_pointer (as_time times)) λ t r. record r { scheduled_at = t })
      ∷ ("metadata", nullable as_map λ m r. record r { metadata = m })
      ∷ (
        "targets",
        nullable (as_slice read_target_req no_target_req) λ l r. record r { targets = l },
      )
      ∷ [])
