-- ===== src/Sdk/Builder/Plan.antt =====
-- The builder of sdk/services/post/builder.go without memory: a plan holds the values themselves.
-- A program that ends each chain of a platform builder by Done gets the plan that it wrote.
use socialpublish.Prelude.{
  ℕ, ◌+◌, String, Bool, true, false, Option, none, some, List, [], ◌∷◌, ◌++◌, ltb, ◌==◌, is_empty,
  str_eq, map, if◌then◌else◌, Result, ok, err, ◌&&◌,
}
use mathlib.Core.Option as Option
use socialpublish.Store.Types.{Time}
use socialpublish.Sdk.Post.{
  Target, CreateRequest, InstagramConfig, YoutubeConfig, platform_instagram, platform_youtube,
}
use socialpublish.Sdk.Builder.{
  Memory, InstagramBuilder, YoutubeBuilder, StringMap, set_key, minimum_schedule_delay, is_some,
  no_instagram, no_youtube,
}
use socialpublish.Sdk.Builder.Targets.{
  InstagramCall, YoutubeCall, configure_instagram, configure_youtube,
}
use socialpublish.Sdk.Builder.Calls.{Chain}

-- A target with the configuration itself.
pub record PlannedTarget : Type 0 where
  pub account_id : String
  pub platform : String
  pub instagram : Option InstagramConfig
  pub youtube : Option YoutubeConfig

pub record Request : Type 0 where
  pub media_ids : List String
  pub targets : List PlannedTarget
  pub scheduled_at : Option Time
  pub publish_immediately : Bool
  pub metadata : Option StringMap

pub record Plan : Type 0 where
  pub request : Request
  pub errors : List String

unfoldable pub configured_instagram : List InstagramCall → InstagramConfig → InstagramConfig
configured_instagram [] t = t
configured_instagram (c ∷ cs) t = configured_instagram cs (configure_instagram c t)

unfoldable pub configured_youtube : List YoutubeCall → YoutubeConfig → YoutubeConfig
configured_youtube [] t = t
configured_youtube (c ∷ cs) t = configured_youtube cs (configure_youtube c t)

abbrev refuse : String → Plan → Plan
refuse e s = record s { errors = s.errors ++ e ∷ [] }

abbrev pub add_target : PlannedTarget → Plan → Plan
add_target t s = record s { request = record (s.request) { targets = s.request.targets ++ t ∷ [] } }

unfoldable pub plan_step : Chain → Plan → Plan
unfolding configured_instagram configured_youtube
plan_step (Chain.with_media ids) s = record s {
  request = record (s.request) { media_ids = s.request.media_ids ++ ids };
}
plan_step (Chain.schedule_at now t) s =
    if t == 0
    then refuse "builder: ScheduleAt: zero time is invalid" s
    else if ltb t (now + minimum_schedule_delay)
    then refuse "builder: ScheduleAt: time must be at least 1 minute in the future" s
    else record s { request = record (s.request) { scheduled_at = some t } }
plan_step Chain.publish_now s = record s {
  request = record (s.request) { publish_immediately = true };
}
plan_step (Chain.with_metadata key value) s = record s {
  request = record (s.request) {
    metadata = elim s.request.metadata [
      | none ↦ some ((key, value) ∷ [])
      | some m ↦ some (set_key key value m)
    ];
  };
}
plan_step (Chain.for_instagram account_id calls) s =
    add_target
      (record {
        account_id = account_id;
        platform = platform_instagram;
        instagram = some (configured_instagram calls no_instagram);
        youtube = none;
      })
      (if str_eq account_id "" then refuse "builder: ForInstagram: accountID is required" s else s)
plan_step (Chain.for_youtube account_id calls) s =
    add_target
      (record {
        account_id = account_id;
        platform = platform_youtube;
        instagram = none;
        youtube = some (configured_youtube calls no_youtube);
      })
      (if str_eq account_id "" then refuse "builder: ForYouTube: accountID is required" s else s)

unfoldable pub plan : List Chain → Plan → Plan
unfolding plan_step
plan [] s = s
plan (c ∷ cs) s = plan cs (plan_step c s)

abbrev pub no_plan : Plan
no_plan = record {
  request = record {
    media_ids = [];
    targets = [];
    scheduled_at = none;
    publish_immediately = false;
    metadata = none;
  };
  errors = [];
}

-- The request that a plan stands for, or why there is none.
unfoldable pub settle : Plan → Result String Request
settle s = elim s.errors [
  | e ∷ es ↦ err e
  | [] ↦
      if is_empty s.request.media_ids
      then err "builder: at least one media ID is required"
      else if is_empty s.request.targets
      then err "builder: at least one platform target is required"
      else if is_some s.request.scheduled_at && s.request.publish_immediately
      then err "builder: ScheduleAt and PublishNow are mutually exclusive"
      else ok s.request
]

-- The value at an address.
unfoldable pub read {ℓ κ} :
    {A : Type ℓ} {B : Type κ} → (A → B) → (ℕ → Option A) → Option ℕ → Option B
read f cells none = none
read f cells (some p) = Option.map f (cells p)

-- Values read through the pointers.
module _ (m : Memory) where
  unfoldable pub read_target : Target → PlannedTarget
  unfolding read
  read_target t = record {
    account_id = t.account_id;
    platform = t.platform;
    instagram = read (λ (b : InstagramBuilder). b.t) m.instagram t.instagram;
    youtube = read (λ (b : YoutubeBuilder). b.t) m.youtube t.youtube;
  }

  unfoldable pub read_request : CreateRequest → Request
  unfolding read_target
  read_request r = record {
    media_ids = r.media_ids;
    targets = map read_target r.targets;
    scheduled_at = r.scheduled_at;
    publish_immediately = r.publish_immediately;
    metadata = Option.map m.maps r.metadata;
  }

  unfoldable pub view : Plan
  unfolding read_request
  view = record { request = read_request m.builder.req; errors = m.builder.errors }
