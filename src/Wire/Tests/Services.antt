-- ===== src/Wire/Tests/Services.antt =====
-- Examples for the services beside the posts.
use socialpublish.Prelude.{pos, some, none, [], ◌∷◌, ok, err, refl, ◌≡◌, select, arith}
use socialpublish.Samples.{
  sample_env, sample_env-IsUp, sample_world, sample_account, sample_crypto, sample_token_key,
  sample_post,
}
use socialpublish.Store.Json.{null, as_map, read_numbers, object, end}
use socialpublish.Store.Types.{Media}
use socialpublish.Store.Database.{World, plain, call, one_row, exists_row}
use socialpublish.Store.Tokens.{decrypt, decrypt_token}
use socialpublish.Store.Analytics.{has_parents}
use socialpublish.Platform.Adapter.{PlatformAdapter, Metrics}
use socialpublish.Platform.Youtube
use socialpublish.Platform.Registry.{Registry}
use socialpublish.Platform.Registry
use socialpublish.Api.Analytics
use socialpublish.Api.Media as ApiMedia
use socialpublish.Api.Media.{ObjectStorage}
use socialpublish.Api.Http.{
  account_body, account_list, media_body, media_page, calendar_body, queue_body,
  next_available_body,
}
use socialpublish.Worker.Analytics.{AnalyticsPayload, snapshot_of, process_analytics}
use socialpublish.Sdk.Account
use socialpublish.Sdk.Media as SdkMedia
use socialpublish.Sdk.Analytics.{no_post_metrics}
use socialpublish.Sdk.Schedule.{no_window, no_calendar_response, no_queue_response}
use socialpublish.Wire.Services.{
  read_connect_response, read_account, read_account_page, read_asset, read_media_page,
  read_calendar_response, read_queue_response, read_window, read_post_metrics,
}
use socialpublish.Wire.Lost.{
  seen_as, services_seen, upload_json, no_upload, read_upload_request, upload_refused,
}
use socialpublish.Wire.Measured.{AreExact, KeepsIntegers, with_extra, metrics_of, metrics_seen}
use socialpublish.Wire.Tests.{times, chars}

abbrev metrics : Metrics
metrics = record {
  views = pos 3;
  likes = pos 2;
  comments = pos 0;
  shares = pos 0;
  reach = pos 5;
  extra = null;
}

-- An adapter that gives metrics.
abbrev measuring : PlatformAdapter
measuring = record Youtube.adapter { fetch_metrics = λ n token id. ok metrics }

abbrev polled : AnalyticsPayload
polled = record {
  workspace_id = "acme";
  account_id = "a1";
  platform = "youtube";
  token_id = "tok1";
  post_id = "p1";
  platform_post_id = "x1";
}

abbrev with_token : World
with_token = record sample_world { tokens = record { id = "tok1"; ciphertext = 7 ∷ 9 ∷ [] } ∷ [] }

abbrev one_adapter : Registry
one_adapter = record { adapters = ("youtube", measuring) ∷ [] }

found_adapter : Registry.get one_adapter "youtube" ≡ some measuring
unfolding Registry.get
found_adapter = refl

token_opened :
    decrypt sample_env sample_crypto sample_token_key "tok1" with_token
    ≡ (ok (9 ∷ []), record with_token { calls = 1 })
unfolding decrypt call one_row decrypt_token
token_opened = refl

metrics-AreExact : AreExact metrics
metrics-AreExact = record {
  views = omega arith;
  likes = omega arith;
  comments = omega arith;
  shares = omega arith;
  reach = omega arith;
}

sample_env-KeepsIntegers : KeepsIntegers sample_env
sample_env-KeepsIntegers = record { keeps = λ z h. refl }

metrics_seen_example :
    seen_as times chars read_post_metrics no_post_metrics
      (Analytics.post sample_env "p1"
        (process_analytics sample_env sample_crypto sample_token_key one_adapter
          (some polled)
          with_token).1).0.body
    ≡ some (record no_post_metrics { metrics = metrics_of (with_extra metrics null) })
unfolding has_parents exists_row snapshot_of select read_numbers as_map
metrics_seen_example =
    metrics_seen times chars sample_env sample_crypto sample_token_key one_adapter polled measuring
      (9 ∷ []) metrics with_token (record with_token { calls = 1 }) sample_env-IsUp found_adapter
      token_opened refl null sample_env-KeepsIntegers metrics-AreExact refl refl refl tt

abbrev video : Media
video = record {
  id = "m1";
  workspace_id = "acme";
  status = "ready";
  media_type = "video";
  original_key = "in.mov";
  mime_type = "video/mp4";
  size_bytes = 9;
  duration_ms = none;
  formats = object end;
  thumbnail_key = "";
  error_message = "";
  created_at = 0;
  updated_at = 0;
}

services_seen_example :
    (seen_as times chars read_connect_response Account.no_connect_response
        (account_body sample_account)
      ≡ some Account.no_connect_response)
    × (seen_as times chars read_account Account.no_account (account_body sample_account)
        ≡ some (record Account.no_account { platform = "youtube" }))
    × (seen_as times chars read_account_page Account.no_page (account_list (sample_account ∷ []))
        ≡ some Account.no_page)
    × (seen_as times chars read_asset SdkMedia.no_asset (media_body video)
        ≡ some (record SdkMedia.no_asset { status = "ready"; formats = object end }))
    × (seen_as times chars read_media_page SdkMedia.no_page (media_page (video ∷ []) "m1")
        ≡ some (record SdkMedia.no_page { next_cursor = "m1" }))
    × (seen_as times chars read_calendar_response no_calendar_response
          (calendar_body (sample_post ∷ []) 5 9)
        ≡ some no_calendar_response)
    × (seen_as times chars read_queue_response no_queue_response (queue_body (sample_post ∷ []))
        ≡ some no_queue_response)
    × (seen_as times chars read_window no_window (next_available_body 5) ≡ some no_window)
unfolding as_map
services_seen_example =
    services_seen times chars sample_account (sample_account ∷ []) video (video ∷ [])
      (sample_post ∷ []) "m1" 5 9 refl

abbrev storage : ObjectStorage
storage = record {
  presign_upload = λ n key content_type. err (plain "down");
  delete_object = λ n key. ok tt;
}

abbrev upload : SdkMedia.UploadRequest
upload = record {
  file_name = "in.mov";
  mime_type = "video/mp4";
  size_bytes = pos 9;
  media_type = "video";
}

upload_refused_example :
    let outcome =
      ApiMedia.upload sample_env storage "acme"
        (read_upload_request (upload_json upload) no_upload)
        sample_world in
    (outcome.0.status ≡ 400) × (outcome.1 ≡ sample_world)
upload_refused_example = upload_refused sample_env storage "acme" upload sample_world
