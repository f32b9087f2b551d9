-- ===== src/Wire/Services.antt =====
-- What the SDK reads of the other answers: the tags of types.go in sdk/services/account, media,
-- schedule and analytics.
use socialpublish.Prelude.{[], ◌∷◌, Option, none, some}
use socialpublish.Store.Json.{Json, as_map}
use socialpublish.Sdk.Account
use socialpublish.Sdk.Account.{Account, ConnectResponse, no_account}
use socialpublish.Sdk.Media
use socialpublish.Sdk.Media.{Asset, UploadResponse, no_asset}
use socialpublish.Sdk.Schedule.{Window, Entry, CalendarResponse, QueueResponse}
use socialpublish.Sdk.Analytics.{Metrics, PostMetrics, AccountMetrics, Summary}
use socialpublish.Wire.Values.{
  TimeText, plain, nullable, as_text, as_boolean, as_int, as_time, as_pointer, as_slice, into_text,
  as_text_map, read_struct,
}

unfoldable pub read_metrics : Json → Metrics → Option Metrics
unfolding read_struct as_map
read_metrics = read_struct (
    ("views", plain as_int λ n m. record m { views = n })
    ∷ ("likes", plain as_int λ n m. record m { likes = n })
    ∷ ("comments", plain as_int λ n m. record m { comments = n })
    ∷ ("shares", plain as_int λ n m. record m { shares = n })
    ∷ ("reach", plain as_int λ n m. record m { reach = n })
    ∷ ("extra", nullable as_map λ e m. record m { extra = e })
    ∷ [])

-- A struct within a struct is read into what is there.
abbrev within : {A B : Type 0} → (Json → B → Option B) → (A → B) → (B → A → A) → Json → A → Option A
within read get put v a = elim (read v (get a)) [ none ↦ none | some b ↦ some (put b a) ]

unfoldable pub read_summary : Json → Summary → Option Summary
unfolding read_metrics read_struct
read_summary =
    read_struct
      (("metrics", within read_metrics (λ s. s.metrics) (λ m s. record s { metrics = m })) ∷ [])

unfoldable pub read_upload_response : Json → UploadResponse → Option UploadResponse
unfolding read_struct as_text_map
read_upload_response = read_struct (
    ("media_id", plain as_text λ s r. record r { media_id = s })
    ∷ ("upload_url", plain as_text λ s r. record r { upload_url = s })
    ∷ ("headers", nullable as_text_map λ m r. record r { headers = m })
    ∷ [])

module _ (times : TimeText) where
  unfoldable pub read_post_metrics : Json → PostMetrics → Option PostMetrics
  unfolding read_metrics read_struct
  read_post_metrics = read_struct (
      ("post_id", plain as_text λ s p. record p { post_id = s })
      ∷ ("metrics", within read_metrics (λ p. p.metrics) (λ m p. record p { metrics = m }))
      ∷ ("updated_at", plain (as_time times) λ t p. record p { updated_at = t })
      ∷ [])

  unfoldable pub read_account_metrics : Json → AccountMetrics → Option AccountMetrics
  unfolding read_metrics read_struct
  read_account_metrics = read_struct (
      ("account_id", plain as_text λ s a. record a { account_id = s })
      ∷ ("metrics", within read_metrics (λ a. a.metrics) (λ m a. record a { metrics = m }))
      ∷ ("updated_at", plain (as_time times) λ t a. record a { updated_at = t })
      ∷ [])

  unfoldable pub read_account : Json → Account → Option Account
  unfolding read_struct
  read_account = read_struct (
      ("account_id", plain as_text λ s a. record a { id = s })
      ∷ ("platform", plain as_text λ s a. record a { platform = s })
      ∷ ("platform_user_id", plain as_text λ s a. record a { platform_user_id = s })
      ∷ ("display_name", plain as_text λ s a. record a { display_name = s })
      ∷ ("avatar_url", plain as_text λ s a. record a { avatar_url = s })
      ∷ ("token_expires_at", plain (as_time times) λ t a. record a { token_expires_at = t })
      ∷ ("token_healthy", plain as_boolean λ b a. record a { token_healthy = b })
      ∷ ("created_at", plain (as_time times) λ t a. record a { created_at = t })
      ∷ ("updated_at", plain (as_time times) λ t a. record a { updated_at = t })
      ∷ [])

  unfoldable pub read_connect_response : Json → ConnectResponse → Option ConnectResponse
  unfolding read_account read_struct
  read_connect_response = read_struct (
      (
        "account",
        nullable (as_pointer (λ v. read_account v no_account)) λ a r. record r { account = a },
      )
      ∷ [])

  unfoldable pub read_account_page : Json → Account.Page → Option Account.Page
  unfolding read_account read_struct as_slice
  read_account_page = read_struct (
      ("items", nullable (as_slice read_account no_account) λ l p. record p { items = l })
      ∷ ("next_cursor", plain as_text λ s p. record p { next_cursor = s })
      ∷ ("has_more", plain as_boolean λ b p. record p { has_more = b })
      ∷ ("total", plain as_int λ n p. record p { total = n })
      ∷ [])

  unfoldable pub read_asset : Json → Asset → Option Asset
  unfolding read_struct as_map
  read_asset = read_struct (
      ("media_id", plain as_text λ s a. record a { id = s })
      ∷ ("status", plain as_text λ s a. record a { status = s })
      ∷ ("media_type", plain as_text λ s a. record a { media_type = s })
      ∷ ("original_key", plain as_text λ s a. record a { original_key = s })
      ∷ ("mime_type", plain as_text λ s a. record a { mime_type = s })
      ∷ ("size_bytes", plain as_int λ n a. record a { size_bytes = n })
      ∷ ("duration_ms", plain as_int λ n a. record a { duration_ms = n })
      ∷ ("formats", nullable as_map λ m a. record a { formats = m })
      ∷ ("thumbnail_key", plain as_text λ s a. record a { thumbnail_key = s })
      ∷ ("error_message", plain as_text λ s a. record a { error_message = s })
      ∷ ("created_at", plain (as_time times) λ t a. record a { created_at = t })
      ∷ ("updated_at", plain (as_time times) λ t a. record a { updated_at = t })
      ∷ [])

  unfoldable pub read_media_page : Json → Media.Page → Option Media.Page
  unfolding read_asset read_struct as_slice
  read_media_page = read_struct (
      ("items", nullable (as_slice read_asset no_asset) λ l p. record p { items = l })
      ∷ ("next_cursor", plain as_text λ s p. record p { next_cursor = s })
      ∷ ("has_more", plain as_boolean λ b p. record p { has_more = b })
      ∷ ("total", plain as_int λ n p. record p { total = n })
      ∷ [])

  abbrev no_entry : Entry
  no_entry = record { post_id = ""; status = ""; scheduled_at = 0; platforms = [] }

  read_entry : Json → Entry → Option Entry
  unfolding read_struct as_slice
  read_entry = read_struct (
      ("post_id", plain as_text λ s e. record e { post_id = s })
      ∷ ("status", plain as_text λ s e. record e { status = s })
      ∷ ("scheduled_at", plain (as_time times) λ t e. record e { scheduled_at = t })
      ∷ ("platforms", nullable (as_slice into_text "") λ l e. record e { platforms = l })
      ∷ [])

  unfoldable pub read_calendar_response : Json → CalendarResponse → Option CalendarResponse
  unfolding read_entry read_struct as_slice
  read_calendar_response =
      read_struct
        (("entries", nullable (as_slice read_entry no_entry) λ l r. record r { entries = l }) ∷ [])

  unfoldable pub read_queue_response : Json → QueueResponse → Option QueueResponse
  unfolding read_entry read_struct as_slice
  read_queue_response = read_struct (
      ("items", nullable (as_slice read_entry no_entry) λ l r. record r { items = l })
      ∷ ("next_cursor", plain as_text λ s r. record r { next_cursor = s })
      ∷ ("has_more", plain as_boolean λ b r. record r { has_more = b })
      ∷ [])

  unfoldable pub read_window : Json → Window → Option Window
  unfolding read_struct
  read_window = read_struct (
      ("start", plain (as_time times) λ t w. record w { start = t })
      ∷ ("end", plain (as_time times) λ t w. record w { end = t })
      ∷ [])
