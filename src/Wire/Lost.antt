-- ===== src/Wire/Lost.antt =====
-- What the other services of the SDK see of the answers of internal/api/handler/account.go, media.go and
-- schedule.go, and what Upload of media.go makes of their request.
use socialpublish.Prelude.{String, List, [], ◌∷◌, Option, none, some, Bytes, ◌≡◌, refl}
use socialpublish.GoText.Print.{strconv_itoa}
use socialpublish.Store.Json.{Json, text, number, as_map}
use socialpublish.Store.Types.{Time, Account, Media, Post}
use socialpublish.Store.Database.{World, Env, pure}
use socialpublish.Api.Http.{
  Body, account_body, account_list, media_body, media_page, calendar_body, queue_body,
  next_available_body,
}
use socialpublish.Api.Media
use socialpublish.Api.Media.{ObjectStorage, UploadRequest}
use socialpublish.Sdk.Account
use socialpublish.Sdk.Media as SdkMedia
use socialpublish.Sdk.Schedule.{no_window, no_calendar_response, no_queue_response}
use socialpublish.Wire.Values.{TimeText, plain, as_text, read_struct, struct, fields_of}
use socialpublish.Wire.Answers.{body_json}
use socialpublish.Wire.Services.{
  read_connect_response, read_account, read_account_page, read_asset, read_media_page,
  read_calendar_response, read_queue_response, read_window,
}

module _ (times : TimeText) (chars : Bytes → String) where
  -- An answer read as the SDK reads it.
  abbrev pub seen_as : {A : Type 0} → (TimeText → Json → A → Option A) → A → Body → Option A
  seen_as read out b = elim (body_json times chars b) [ none ↦ none | some j ↦ read times j out ]

  -- Of a connected account the SDK sees nothing, of one that is fetched the platform, of a media
  -- the status and, if they are a map, the formats; a list of accounts or media, the calendar, the
  -- queue and the next available window are empty to it, but for the cursor of the media.
  pub services_seen :
      (a : Account) (accounts : List Account) (m : Media) (media : List Media) (posts : List Post)
      (next : String) (start stop : Time)
      → as_map m.formats ≡ some m.formats
      → (seen_as read_connect_response Account.no_connect_response (account_body a)
          ≡ some Account.no_connect_response)
        × (seen_as read_account Account.no_account (account_body a)
            ≡ some (record Account.no_account { platform = a.platform }))
        × (seen_as read_account_page Account.no_page (account_list accounts) ≡ some Account.no_page)
        × (seen_as read_asset SdkMedia.no_asset (media_body m)
            ≡ some (record SdkMedia.no_asset { status = m.status; formats = m.formats }))
        × (seen_as read_media_page SdkMedia.no_page (media_page media next)
            ≡ some (record SdkMedia.no_page { next_cursor = next }))
        × (seen_as read_calendar_response no_calendar_response (calendar_body posts start stop)
            ≡ some no_calendar_response)
        × (seen_as read_queue_response no_queue_response (queue_body posts)
            ≡ some no_queue_response)
        × (seen_as read_window no_window (next_available_body start) ≡ some no_window)
  unfolding body_json read_connect_response read_account read_account_page read_asset
      read_media_page read_calendar_response read_queue_response read_window
  services_seen a accounts m media posts next start stop h =
      (refl, refl, refl, cc, refl, refl, refl, refl)

unfoldable pub upload_json : SdkMedia.UploadRequest → Json
unfolding fields_of
upload_json r = struct (
    ("file_name", text r.file_name)
    ∷ ("mime_type", text r.mime_type)
    ∷ ("size_bytes", number (strconv_itoa r.size_bytes))
    ∷ ("media_type", text r.media_type)
    ∷ [])

abbrev pub no_upload : UploadRequest
no_upload = record { filename = ""; content_type = ""; media_type = "" }

unfoldable pub read_upload_request : Json → UploadRequest → Option UploadRequest
unfolding read_struct
read_upload_request = read_struct (
    ("filename", plain as_text λ s r. record r { filename = s })
    ∷ ("content_type", plain as_text λ s r. record r { content_type = s })
    ∷ ("media_type", plain as_text λ s r. record r { media_type = s })
    ∷ [])

-- Upload refuses every request that the SDK writes, and stores nothing.
pub upload_refused :
    (env : Env) (storage : ObjectStorage) (workspace_id : String) (r : SdkMedia.UploadRequest)
    (w : World)
    → let outcome =
        Media.upload env storage workspace_id (read_upload_request (upload_json r) no_upload) w in
      (outcome.0.status ≡ 400) × (outcome.1 ≡ w)
unfolding Media.upload read_upload_request upload_json pure
upload_refused env storage workspace_id r w = (refl, refl)
