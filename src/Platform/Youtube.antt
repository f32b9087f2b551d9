-- ===== src/Platform/Youtube.antt =====
-- internal/platform/youtube: the adapter, which validates and then reports that the live flow is
-- not configured.
use socialpublish.Prelude.{
  String, ◌||◌, not, Option, none, some, Bytes, is_empty, if◌then◌else◌, str_eq, Result, ok, err,
}
use socialpublish.Store.Types.{PostTarget}
use socialpublish.Store.Database.{Error, plain, wrap, named}
use socialpublish.Platform.Adapter.{
  PublishRequest, PublishResult, OAuthToken, Metrics, PlatformAdapter,
}

abbrev pub platform_name : String
platform_name = "youtube"

unfoldable pub validate_target : PostTarget → Result Error (Unit {0})
validate_target target =
    if not (str_eq target.platform platform_name)
    then err (plain (named "youtube target platform mismatch: " target.platform ""))
    else if str_eq target.format "short" || str_eq target.format "video"
    then ok tt
    else err (plain (named "youtube unsupported format: " target.format ""))

publish_target : PublishRequest → PostTarget → Result Error PublishResult
publish_target req target = elim (validate_target target) [
  | err e ↦ err (wrap "youtube publish validate target" e)
  | ok _ ↦
      if is_empty req.access_token
      then err (plain "youtube publish: access token is required")
      else if str_eq req.media_url ""
      then err (plain "youtube publish: media URL is required")
      else err (
          plain (
            named "youtube publish: live resumable upload flow not configured for target " target.id
              ""))
]

require_target : PublishRequest → Option PostTarget → Result Error PublishResult
unfolding publish_target
require_target req none = err (plain "youtube publish: target is required")
require_target req (some target) = publish_target req target

unfoldable pub publish : Option PublishRequest → Result Error PublishResult
unfolding require_target
publish none = err (plain "youtube publish: target is required")
publish (some req) = require_target req req.target

unfoldable pub refresh_token : Bytes → Result Error OAuthToken
refresh_token token =
    if is_empty token
    then err (plain "youtube refresh token: refresh token is required")
    else err (plain "youtube refresh token: live OAuth flow not configured")

unfoldable pub fetch_metrics : Bytes → String → Result Error Metrics
fetch_metrics access_token platform_post_id =
    if is_empty access_token || str_eq platform_post_id ""
    then err (plain "youtube metrics: access token and platform post ID are required")
    else err (plain "youtube metrics: live Data API flow not configured")

unfoldable pub adapter : PlatformAdapter
adapter = record {
  platform = platform_name;
  publish = λ n. publish;
  refresh_token = λ n. refresh_token;
  fetch_metrics = λ n. fetch_metrics;
  validate_target = validate_target;
}
