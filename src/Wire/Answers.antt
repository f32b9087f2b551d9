-- ===== src/Wire/Answers.antt =====
-- The answers of internal/api/handler as JSON: the structs of internal/store/types.go, which have no
-- tags, under the names of their fields, and the maps that the handlers build.
use socialpublish.Prelude.{String, Bytes, Option, none, some, [], ◌∷◌}
use socialpublish.GoText.Print.{itoa}
use socialpublish.Store.Json.{Json, boolean, number, text, object}
use socialpublish.Store.Types.{
  Time, Account, Media, Post, PostTarget, AnalyticsSnapshot, WebhookEndpoint,
}
use socialpublish.Api.Http.{
  Body, empty, error_body, status_body, publishing_body, post_body, post_page, post_detail,
  calendar_body, queue_body, next_available_body, account_body, account_list, account_status,
  media_body, media_page, upload_body, webhook_created, webhook_list, analytics_body,
}
use socialpublish.Wire.Values.{TimeText, slice, pointer, struct, fields_of, text_fields, items_of}

module _ (times : TimeText) where
  abbrev pub time_json : Time → Json
  time_json t = text (times.print t)

  unfoldable pub post_json : Post → Json
  unfolding fields_of items_of
  post_json p = struct (
      ("ID", text p.id)
      ∷ ("WorkspaceID", text p.workspace_id)
      ∷ ("Status", text p.status)
      ∷ ("MediaIDs", slice text p.media_ids)
      ∷ ("ScheduledAt", pointer time_json p.scheduled_at)
      ∷ ("PublishedAt", pointer time_json p.published_at)
      ∷ ("Metadata", p.metadata)
      ∷ ("CreatedAt", time_json p.created_at)
      ∷ ("UpdatedAt", time_json p.updated_at)
      ∷ [])

  unfoldable pub target_json : PostTarget → Json
  unfolding fields_of
  target_json t = struct (
      ("ID", text t.id)
      ∷ ("PostID", text t.post_id)
      ∷ ("AccountID", text t.account_id)
      ∷ ("Platform", text t.platform)
      ∷ ("Format", text t.format)
      ∷ ("Config", t.config)
      ∷ ("Status", text t.status)
      ∷ ("PlatformPostID", text t.platform_post_id)
      ∷ ("Permalink", text t.permalink)
      ∷ ("FailureReason", text t.failure_reason)
      ∷ ("AttemptCount", number (itoa t.attempt_count))
      ∷ ("LastAttemptedAt", pointer time_json t.last_attempted_at)
      ∷ ("PublishedAt", pointer time_json t.published_at)
      ∷ [])

  unfoldable pub account_json : Account → Json
  unfolding fields_of
  account_json a = struct (
      ("ID", text a.id)
      ∷ ("WorkspaceID", text a.workspace_id)
      ∷ ("Platform", text a.platform)
      ∷ ("PlatformUserID", text a.platform_user_id)
      ∷ ("DisplayName", text a.display_name)
      ∷ ("AvatarURL", text a.avatar_url)
      ∷ ("TokenID", text a.token_id)
      ∷ ("TokenExpiresAt", pointer time_json a.token_expires_at)
      ∷ ("TokenHealthy", boolean a.token_healthy)
      ∷ ("CreatedAt", time_json a.created_at)
      ∷ ("UpdatedAt", time_json a.updated_at)
      ∷ [])

  unfoldable pub media_json : Media → Json
  unfolding fields_of
  media_json m = struct (
      ("ID", text m.id)
      ∷ ("WorkspaceID", text m.workspace_id)
      ∷ ("Status", text m.status)
      ∷ ("MediaType", text m.media_type)
      ∷ ("OriginalKey", text m.original_key)
      ∷ ("MimeType", text m.mime_type)
      ∷ ("SizeBytes", number (itoa m.size_bytes))
      ∷ ("DurationMS", pointer (λ d. number (itoa d)) m.duration_ms)
      ∷ ("Formats", m.formats)
      ∷ ("ThumbnailKey", text m.thumbnail_key)
      ∷ ("ErrorMessage", text m.error_message)
      ∷ ("CreatedAt", time_json m.created_at)
      ∷ ("UpdatedAt", time_json m.updated_at)
      ∷ [])

  unfoldable pub snapshot_json : AnalyticsSnapshot → Json
  unfolding fields_of
  snapshot_json s = struct (
      ("ID", text s.id)
      ∷ ("WorkspaceID", text s.workspace_id)
      ∷ ("AccountID", text s.account_id)
      ∷ ("PostID", text s.post_id)
      ∷ ("PlatformPostID", text s.platform_post_id)
      ∷ ("Metrics", s.metrics)
      ∷ ("CollectedAt", time_json s.collected_at)
      ∷ [])

  -- An endpoint in the list of the webhook handler.
  unfoldable pub endpoint_json : WebhookEndpoint → Json
  unfolding fields_of items_of
  endpoint_json ep = struct (
      ("created_at", time_json ep.created_at)
      ∷ ("enabled", boolean ep.enabled)
      ∷ ("events", slice text ep.events)
      ∷ ("id", text ep.id)
      ∷ ("url", text ep.url)
      ∷ [])

  -- `chars` is the text of the bytes of a secret, which are hexadecimal digits.
  unfoldable pub body_json : (chars : Bytes → String) → Body → Option Json
  unfolding fields_of items_of text_fields post_json target_json account_json media_json
      snapshot_json endpoint_json
  body_json chars empty = none
  body_json chars (error_body code message) =
      some (struct (("code", text code) ∷ ("message", text message) ∷ []))
  body_json chars (status_body status) = some (struct (("status", text status) ∷ []))
  body_json chars (publishing_body status post_id) =
      some (struct (("post_id", text post_id) ∷ ("status", text status) ∷ []))
  body_json chars (post_body p) = some (pointer post_json p)
  body_json chars (post_page posts next_cursor) =
      some (struct (("data", slice post_json posts) ∷ ("next_cursor", text next_cursor) ∷ []))
  body_json chars (post_detail p targets) =
      some (struct (("post", post_json p) ∷ ("targets", slice target_json targets) ∷ []))
  body_json chars (calendar_body posts start stop) = some (
      struct
        (("data", slice post_json posts) ∷ ("from", time_json start) ∷ ("to", time_json stop) ∷ []))
  body_json chars (queue_body posts) = some (struct (("data", slice post_json posts) ∷ []))
  body_json chars (next_available_body next) =
      some (struct (("next_available", time_json next) ∷ []))
  body_json chars (account_body a) = some (account_json a)
  body_json chars (account_list accounts) =
      some (struct (("data", slice account_json accounts) ∷ []))
  body_json chars (account_status account_id token_healthy expires_at) = some (
      struct (
        ("account_id", text account_id)
        ∷ ("expires_at", pointer time_json expires_at)
        ∷ ("token_healthy", boolean token_healthy)
        ∷ []))
  body_json chars (media_body m) = some (media_json m)
  body_json chars (media_page items next_cursor) =
      some (struct (("data", slice media_json items) ∷ ("next_cursor", text next_cursor) ∷ []))
  body_json chars (upload_body media_id upload_url headers) = some (
      struct (
        ("headers", object (text_fields headers))
        ∷ ("media_id", text media_id)
        ∷ ("upload_url", text upload_url)
        ∷ []))
  body_json chars (webhook_created ep secret) = some (
      struct (
        ("created_at", time_json ep.created_at)
        ∷ ("enabled", boolean ep.enabled)
        ∷ ("events", slice text ep.events)
        ∷ ("id", text ep.id)
        ∷ ("secret", text (chars secret))
        ∷ ("url", text ep.url)
        ∷ []))
  body_json chars (webhook_list endpoints) =
      some (struct (("data", slice endpoint_json endpoints) ∷ []))
  body_json chars (analytics_body s) = some (snapshot_json s)
