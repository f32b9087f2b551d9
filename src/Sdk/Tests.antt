-- ===== src/Sdk/Tests.antt =====
-- Examples for sdk/services.
use socialpublish.Prelude.{
  str_eq, String, Bool, true, false, none, some, List, [], ◌∷◌, All, ok, ◌≡◌, refl, arith, ◌≢◌,
  ◌++◌, Bytes, codes, ◌==◌, if◌then◌else◌,
}
use socialpublish.Store.Types.{Time, ApiKey}
use socialpublish.Samples.{sample_env, sample_env-IsUp, sample_key, sample_world}
use socialpublish.Store.Database.{World, S, one_row}
use socialpublish.Api.Http.{Response, status_body}
use socialpublish.Api.Middleware.{Workspace, authenticate, is_expired}
use socialpublish.Transport.Client.{Config, defaults, new_client, apply_options, trim_slashes}
use socialpublish.Transport.Request.{
  HttpRequest, UrlLibrary, new_request, made_request, header_authorization,
}
use socialpublish.Sdk.Request.{Method}
use socialpublish.Sdk.Authenticated.{header, touched, authenticate-new_request}
use socialpublish.Sdk.Post.{CreateRequest, platform_instagram}
use socialpublish.Sdk.Builder.{
  schedule_at, with_media, for_instagram, new_post, build, no_instagram,
}
use socialpublish.Sdk.Builder.Targets.{instagram_done, on_instagram, InstagramCall, YoutubeCall}
use socialpublish.Sdk.Builder.Calls.{Call, Chain, run, follow_all}
use socialpublish.Sdk.Builder.Plan.{plan, settle, no_plan, read_request}
use socialpublish.Sdk.Builder.Refines.{read_build, read_build-follow_all}
use socialpublish.GoText.Split.{Lacks}
use socialpublish.Api.Routes.{Handler, Pattern, fits, outer_layers, v1_layers}
use socialpublish.Sdk.Routed.{Operation, HasIds, meant, segments, served, sent}
use socialpublish.Sdk.Routed.Laws.{routed}
use socialpublish.Sdk.Builder.Sound.{IsFrom}
use socialpublish.Sdk.Builder.Valid.{IsValid, build-IsValid}

abbrev a_minute_later : Time
a_minute_later = 160_000_000_000

abbrev start : Time
start = 100_000_000_000

abbrev two_chains : List Chain
two_chains =
    Chain.with_media ("m1" ∷ [])
    ∷ Chain.for_instagram "a1"
        (InstagramCall.as_reel "Hello" ∷ InstagramCall.share_to_feed true ∷ [])
    ∷ Chain.for_youtube "a2" (YoutubeCall.as_short "Hi" "" ∷ YoutubeCall.with_privacy "public" ∷ [])
    ∷ Chain.with_metadata "k" "v"
    ∷ Chain.schedule_at start a_minute_later
    ∷ []

read_build-follow_all_example :
    read_build (follow_all two_chains new_post) ≡ settle (plan two_chains no_plan)
read_build-follow_all_example = read_build-follow_all two_chains

abbrev loose_calls : List Call
loose_calls =
    Call.for_instagram "a1"
    ∷ Call.with_media ("m1" ∷ [])
    ∷ Call.instagram 0 (InstagramCall.as_reel "Hello")
    ∷ Call.instagram_done 0
    ∷ Call.schedule_at start a_minute_later
    ∷ []

abbrev loose_request : CreateRequest
loose_request = record {
  media_ids = "m1" ∷ [];
  targets =
      record {
        account_id = "a1";
        platform = platform_instagram;
        instagram = some 0;
        youtube = none;
      }
      ∷ [];
  scheduled_at = some a_minute_later;
  publish_immediately = false;
  metadata = none;
}

loose_calls_built : build (run loose_calls new_post) ≡ ok loose_request
unfolding build run new_post schedule_at instagram_done on_instagram with_media for_instagram
loose_calls_built = refl

loose_calls-IsFrom : All (IsFrom start) loose_calls
unfolding IsFrom
loose_calls-IsFrom = (tt, (tt, (tt, (tt, (omega arith, tt)))))

build-IsValid_example : IsValid start loose_request
build-IsValid_example =
    build-IsValid start loose_calls loose_request loose_calls-IsFrom loose_calls_built

-- A call after Done changes the target that was committed before.
story_after_done :
    (read_request
      (run (Call.instagram 0 InstagramCall.as_story ∷ []) (run loose_calls new_post))
      loose_request).targets
    ≡ record {
      account_id = "a1";
      platform = platform_instagram;
      instagram = some (record no_instagram { format = "story"; caption = "Hello" });
      youtube = none;
    }
      ∷ []
unfolding run new_post read_request schedule_at instagram_done on_instagram with_media for_instagram
story_after_done = refl

-- An escape that leaves no slash.
dashed : Bytes → Bytes
dashed [] = []
dashed (c ∷ s) = (if c == b'/' then b'-' else c) ∷ dashed s

dashed-Lacks : (s : Bytes) → Lacks b'/' (dashed s)
unfolding dashed
dashed-Lacks [] = tt
dashed-Lacks (c ∷ s) = (ground arith, dashed-Lacks s)

dashed-text : (s : Bytes) → s ≢ [] → (dashed s ≢ []) × Lacks b'/' (dashed s)
unfolding dashed
dashed-text [] h = absurd (h refl)
dashed-text (c ∷ s) h = ((λ e. cc), dashed-Lacks (c ∷ s))

abbrev shown : Time → String
shown t = "2026-01-01T00:00:00Z"

abbrev by_segments : Pattern → Bytes → Bool
by_segments pattern path = fits pattern (segments path)

p1_named : HasIds (Operation.post_publish (codes "p1"))
unfolding HasIds
p1_named e = cc

routed_example :
    served by_segments (sent dashed shown (Operation.post_publish (codes "p1")))
    ≡ (Handler.post_publish, outer_layers ++ v1_layers) ∷ []
unfolding meant
routed_example =
    routed dashed shown by_segments dashed-text (λ pattern path texts. refl)
      (Operation.post_publish (codes "p1")) p1_named

abbrev urls : UrlLibrary Bytes
urls = record {
  parse = λ text. some text;
  set_query = λ u query. u ++ b'?' ∷ query;
  print = λ u. u;
  encode = λ query. [];
  accepts = λ method url. true;
}

abbrev client : Config
client = record defaults { api_key = codes "k" }

made_client : new_client (codes "k") [] ≡ ok client
unfolding new_client apply_options trim_slashes
made_client = refl

abbrev listing_posts : HttpRequest
listing_posts =
    made_request urls client Method.get (codes "https://api.socialpublish.io/v1/posts") none

built_listing : new_request urls client Method.get (codes "/v1/posts") none none ≡ ok listing_posts
unfolding new_request
built_listing = refl

-- A key without an end.
abbrev lasting_key : ApiKey
lasting_key = record sample_key { expires_at = none }

abbrev keyed_world : World
keyed_world = record sample_world { api_keys = lasting_key ∷ [] }

found_key : one_row (λ (k : ApiKey). str_eq k.key_hash "hash") keyed_world.api_keys ≡ ok lasting_key
unfolding one_row
found_key = refl

abbrev answers : Workspace → S Response
answers ws w = (record { status = 200; body = status_body ws.id }, w)

authenticate-new_request_example :
    authenticate sample_env
      (λ text. "hash")
      (header header_authorization listing_posts.headers)
      answers
      keyed_world
    ≡ answers (record { id = "acme"; plan = "free" }) (touched sample_env lasting_key keyed_world)
unfolding is_expired
authenticate-new_request_example =
    authenticate-new_request urls (codes "k") [] client Method.get (codes "/v1/posts") none none
      listing_posts sample_env (λ text. "hash") lasting_key keyed_world answers made_client
      built_listing sample_env-IsUp found_key refl
