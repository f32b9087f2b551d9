-- ===== src/Worker/Tests.antt =====
-- Examples for internal/worker.
use socialpublish.Prelude.{
  List, All, ◌+◌, true, none, some, [], ◌∷◌, ◌++◌, map, select, codes, ok, err, ◌≡◌, ◌⊎◌, refl,
  str_eq, arith,
}
use socialpublish.Samples.{
  sample_env, sample_env-IsUp, sample_env-ScansText, sample_world, sample_account, sample_endpoint,
  sample_hmac, sample_crypto, sample_token_key,
}
use socialpublish.Store.Json.{object, end}
use socialpublish.Store.Types.{PostTarget, WebhookEndpoint, WebhookDelivery, TokenRow}
use socialpublish.Store.Database.{
  World, Env, plain, skip, webhook_task, update_where, call, one_row,
}
use socialpublish.Store.Posts.{target_is}
use socialpublish.Store.Webhooks.{new_delivery, receives}
use socialpublish.Platform.Adapter.{PublishResult, PlatformAdapter}
use socialpublish.Store.Tokens.{decrypt, decrypt_token}
use socialpublish.Worker.Publish.{PublishPayload, publish_with, event_payload}
use socialpublish.Worker.Publish.Once.{publish_with-accepted, publish_with-up}
use socialpublish.Prelude.{ℕ, String, Result}
use socialpublish.Store.Database.{Error, bad_column, wrap, named}
use socialpublish.Store.Types.{MediaRow}
use socialpublish.Store.Media.{media_is, new_media, get_media}
use socialpublish.Ffmpeg.{Runner, preset_youtube_short}
use socialpublish.Worker.Transcode.{TranscodePayload, process_transcode}
use socialpublish.Worker.Transcode.Recorded.{
  ran, recorded, reported, process_transcode-recorded, get_media-transcoded,
}
use socialpublish.Worker.Deliver.{Client, deliver_one}
use socialpublish.Worker.Deliver.{process_deliver}
use socialpublish.Worker.Deliver.Settled.{IsAnswered, IsServable, Opens}
use socialpublish.Worker.Deliver.Liveness.{IsDelivered, process_deliver-IsDelivered}
use socialpublish.Worker.Deliver.Laws.{deliver_one-responded}

abbrev payload : PublishPayload
payload = record { post_id = "p1"; target_id = "t1" }

abbrev target : PostTarget
target = record {
  id = "t1";
  post_id = "p1";
  account_id = "a1";
  platform = "youtube";
  format = "short";
  config = object end;
  status = "pending";
  platform_post_id = "";
  permalink = "";
  failure_reason = "";
  attempt_count = 0;
  last_attempted_at = none;
  published_at = none;
}

abbrev result : PublishResult
result = record { platform_post_id = "x1"; permalink = "https://video.test/x1" }

-- An adapter that publishes.
abbrev adapter : PlatformAdapter
adapter = record {
  platform = "youtube";
  publish = λ n req. ok result;
  refresh_token = λ n token. err (plain "no");
  fetch_metrics = λ n token id. err (plain "no");
  validate_target = λ t. ok tt;
}

-- No call of the database or the queue succeeds.
abbrev down : Env
down = record sample_env { fails = λ n. true }

publish_with-accepted_example :
    ((publish_with down payload sample_account target (codes "tok") (some adapter) sample_world).0
      ≡ ok tt)
    ⊎ ((publish_with down payload sample_account target (codes "tok") (some adapter) sample_world).0
        ≡ err (skip "persist publish result"))
publish_with-accepted_example =
    publish_with-accepted down payload sample_account target (codes "tok") adapter sample_world
      result refl

publish_with-up_example :
    publish_with sample_env payload sample_account target (codes "tok") (some adapter) sample_world
    ≡ (
      ok tt,
      record sample_world {
        targets =
            update_where
              (target_is "t1")
              (λ t. record t {
                status = "published";
                platform_post_id = some "x1";
                permalink = some "https://video.test/x1";
                published_at = some (sample_env.now 1);
              })
              sample_world.targets;
        deliveries =
            []
            ++ map
                (λ (e : WebhookEndpoint).
                  new_delivery sample_env e.id e.id "post.published"
                    (event_payload sample_env payload target result))
                (select (receives sample_env "acme") (sample_endpoint ∷ []));
        queue = webhook_task "acme" ∷ [];
        calls = 4;
      },
    )
publish_with-up_example =
    publish_with-up sample_env payload sample_account target (codes "tok") adapter sample_world
      sample_env-IsUp result refl

abbrev delivery : WebhookDelivery
delivery = record {
  id = "d1";
  endpoint_id = "e1";
  event_type = "post.published";
  payload = object end;
  response_status = none;
  attempt_count = 0;
  delivered_at = none;
  next_retry_at = none;
}

-- The endpoint answers by 500.
abbrev client : Client
client = record {
  marshal = λ event. codes "{}";
  hmac = sample_hmac;
  builds = λ url. true;
  send = λ n req. some 500;
}

abbrev waiting : World
waiting = record sample_world { deliveries = delivery ∷ [] }

deliver_one-responded_example :
    (deliver_one sample_env client sample_endpoint (codes "key") delivery none waiting).1
    ≡ record waiting {
      deliveries =
          update_where
            (λ (x : WebhookDelivery). str_eq x.id "d1")
            (λ x. record x {
              delivered_at = some (sample_env.now 1);
              response_status = some 500;
              attempt_count = x.attempt_count + 1;
            })
            (delivery ∷ []);
      calls = 2;
    }
deliver_one-responded_example =
    deliver_one-responded sample_env client sample_endpoint (codes "key") delivery none waiting 500
      sample_env-IsUp refl refl

abbrev secrets : List TokenRow
secrets = record { id = "tok2"; ciphertext = 7 ∷ 9 ∷ [] } ∷ []

abbrev due : World
due = record waiting { tokens = secrets }

client-IsAnswered : IsAnswered client
client-IsAnswered = record { builds = λ url. refl; answers = λ n req. (500, refl) }

endpoint-IsServable :
    IsServable sample_env sample_crypto sample_token_key secrets (delivery ∷ []) sample_endpoint
unfolding IsServable Opens decrypt call one_row decrypt_token select
endpoint-IsServable on = (λ v same. (9 ∷ [], rw (same) refl), omega arith)

process_deliver-IsDelivered_example :
    All
      (λ (ep : WebhookEndpoint).
        str_eq ep.workspace_id "acme" ≡ true
        → IsDelivered
            ((process_deliver sample_env client sample_crypto sample_token_key (some "acme") due).1
              ).deliveries
            ep)
      (sample_endpoint ∷ [])
process_deliver-IsDelivered_example =
    process_deliver-IsDelivered sample_env client sample_crypto sample_token_key "acme" due
      sample_env-IsUp client-IsAnswered (λ mine. endpoint-IsServable, tt)

abbrev converting : TranscodePayload
converting = record {
  media_id = "m1";
  input_path = "in.mov";
  output_path = "out.mp4";
  preset = preset_youtube_short;
}

abbrev ffmpeg : Runner
ffmpeg = record { bin = "ffmpeg"; timeout = 60 }

-- A process that fails.
abbrev crash : ℕ → String → ℕ → List String → Result Error (Unit {0})
crash n bin timeout args = err (plain "exit status 1")

abbrev uploaded : MediaRow
uploaded = new_media sample_env "m1" "acme" "uploading" "video" "m1/original" "video/mp4" 100 0

abbrev with_media : World
with_media = record sample_world { media = uploaded ∷ [] }

media_found : one_row (media_is "m1") with_media.media ≡ ok uploaded
unfolding one_row new_media
media_found = refl

uploaded-bare : (uploaded.thumbnail_key ≡ none) × (uploaded.error_message ≡ none)
unfolding new_media
uploaded-bare = (refl, refl)

process_transcode-recorded_example :
    let outcome = process_transcode sample_env crash ffmpeg (some converting) with_media in
    let run = ran sample_env crash ffmpeg converting with_media in
    (outcome.0 ≡ reported sample_env crash ffmpeg converting run.0)
    × (one_row (media_is "m1") outcome.1.media
        ≡ ok (
            recorded sample_env crash ffmpeg converting run.0
              (sample_env.now run.1.calls)
              uploaded))
process_transcode-recorded_example =
    process_transcode-recorded sample_env crash ffmpeg converting with_media uploaded
      sample_env-IsUp media_found

get_media-transcoded_example :
    (get_media sample_env "m1"
      (process_transcode sample_env crash ffmpeg (some converting) with_media).1).0
    ≡ err (wrap (named "scan media " "m1" "") bad_column)
get_media-transcoded_example =
    get_media-transcoded sample_env crash ffmpeg converting with_media uploaded sample_env-ScansText
      uploaded-bare.0 uploaded-bare.1 sample_env-IsUp media_found
