-- ===== src/Wire/Created.antt =====
-- Create of sdk/services/post/service.go against Create of internal/api/handler/post.go: what the server
-- receives of a request of the SDK, stores and answers.
use socialpublish.Prelude.{
  ℕ, String, Bool, Option, none, some, List, [], ◌∷◌, map, is_empty, if◌then◌else◌, ◌≡◌, refl,
  arith,
}
use socialpublish.Store.Json.{Json, null, text, object}
use socialpublish.Store.Types.{Time}
use socialpublish.Sdk.Post.{InstagramConfig, YoutubeConfig}
use socialpublish.Sdk.Builder.{StringMap}
use socialpublish.Sdk.Builder.Plan.{PlannedTarget, Request}
use socialpublish.Api.Post.{TargetReq, CreatePostRequest}
use socialpublish.Wire.Values.{TimeText, items_of, read_items, into_text, text_fields}
use socialpublish.Wire.Requests.{
  or_no_map, planned_target_json, request_json, read_target_req, read_create_request, no_target_req,
  no_create_request,
}

-- A target without its configuration, which the server reads under other names.
unfoldable pub bare : PlannedTarget → TargetReq
bare t = record no_target_req { account_id = t.account_id; platform = t.platform }

abbrev pub metadata_json : StringMap → Json
metadata_json m = if is_empty m then null else object (text_fields m)

-- What the server reads of a request.
unfoldable pub received : Request → CreatePostRequest
unfolding bare
received r = record {
  media_ids = r.media_ids;
  scheduled_at = r.scheduled_at;
  metadata = metadata_json (or_no_map r.metadata);
  targets = map bare r.targets;
}

read_items-texts : (l : List String) → read_items into_text "" (items_of text l) ≡ some l
unfolding read_items items_of
read_items-texts [] = refl
read_items-texts (s ∷ l) = cc (read_items-texts l)

module _ (float_text : ℕ → String) where
  read_target_req-planned :
      (a p : String) (i : Option InstagramConfig) (y : Option YoutubeConfig)
      → read_target_req
          (planned_target_json float_text
            (record { account_id = a; platform = p; instagram = i; youtube = y }))
          no_target_req
        ≡ some (record no_target_req { account_id = a; platform = p })
  unfolding read_target_req planned_target_json
  read_target_req-planned a p none none = refl
  read_target_req-planned a p none (some y) = refl
  read_target_req-planned a p (some i) none = refl
  read_target_req-planned a p (some i) (some y) = refl

  read_items-targets :
      (ts : List PlannedTarget)
      → read_items read_target_req no_target_req (items_of (planned_target_json float_text) ts)
        ≡ some (map bare ts)
  unfolding read_items items_of bare
  read_items-targets [] = refl
  read_items-targets (t ∷ ts) =
      cc (
        read_target_req-planned t.account_id t.platform t.instagram t.youtube,
        read_items-targets ts,
      )

  module _ (times : TimeText) where
    -- By the cases of the fields that are left out if they are empty.
    read_request-parts :
        (l : List String) (ts : List PlannedTarget) (s : Option Time) (now : Bool)
        (md : Option StringMap)
        → ((t : Time) → s ≡ some t → times.parse (times.print t) ≡ some t)
        → read_create_request times
            (request_json float_text times (record {
              media_ids = l;
              targets = ts;
              scheduled_at = s;
              publish_immediately = now;
              metadata = md;
            }))
            no_create_request
          ≡ some (record {
            media_ids = l;
            scheduled_at = s;
            metadata = metadata_json (or_no_map md);
            targets = map bare ts;
          })
    unfolding read_create_request request_json
    read_request-parts l ts none now md h =
        ground (arith, read_items-texts l, read_items-targets ts)
    read_request-parts l ts (some t) now md h =
        ground (arith, read_items-texts l, read_items-targets ts, h t refl)

    -- What the server decodes of the request that the SDK writes: the media, the time, the metadata
    -- and of each target the account and the platform; neither the wish to publish at once nor the
    -- configurations of the targets.
    pub read_create_request-request_json :
        (r : Request)
        → ((t : Time) → r.scheduled_at ≡ some t → times.parse (times.print t) ≡ some t)
        → read_create_request times (request_json float_text times r) no_create_request
          ≡ some (received r)
    unfolding received
    read_create_request-request_json r h =
        read_request-parts r.media_ids r.targets r.scheduled_at r.publish_immediately r.metadata h
