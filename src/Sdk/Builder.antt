-- ===== src/Sdk/Builder.antt =====
-- sdk/services/post/builder.go. The methods change objects behind pointers, so that they are steps
-- on a memory: the Builder, and the platform builders and metadata maps by their addresses. A
-- target holds the address of the builder whose configuration it points to. The parent of every
-- platform builder is the one Builder.
pub mod Targets
pub mod Calls
pub mod Plan
pub mod Chains
pub mod Refines
pub mod Sound
pub mod Valid
use socialpublish.Prelude.{
  ℕ, suc, ◌+◌, String, Bool, true, false, Option, none, some, List, [], ◌∷◌, ◌++◌, pos, ltb, ◌==◌,
  str_eq, is_empty, ◌&&◌, if◌then◌else◌, Result, ok, err,
}
use socialpublish.Store.Types.{Time}
use socialpublish.Sdk.Post.{
  InstagramConfig, YoutubeConfig, Target, CreateRequest, platform_instagram, platform_youtube,
}

-- time.Minute in nanoseconds.
abbrev pub minimum_schedule_delay : ℕ
minimum_schedule_delay = 60_000_000_000

pub record Builder : Type 0 where
  pub req : CreateRequest
  pub errors : List String

pub record InstagramBuilder : Type 0 where
  pub account_id : String
  pub t : InstagramConfig

pub record YoutubeBuilder : Type 0 where
  pub account_id : String
  pub t : YoutubeConfig

abbrev pub StringMap : Type 0
StringMap = List (String × String)

-- m[key] = value
unfoldable pub set_key : String → String → StringMap → StringMap
set_key k v [] = (k, v) ∷ []
set_key k v ((j, w) ∷ m) =
    let rest = set_key k v m in if str_eq j k then (k, v) ∷ m else (j, w) ∷ rest

abbrev pub is_some {ℓ} : {A : Type ℓ} → Option A → Bool
is_some none = false
is_some (some a) = true

-- The addresses below `next` are taken.
pub record Memory : Type 0 where
  pub builder : Builder
  pub next : ℕ
  pub instagram : ℕ → Option InstagramBuilder
  pub youtube : ℕ → Option YoutubeBuilder
  pub maps : ℕ → StringMap

unfoldable pub update {ℓ} : {A : Type ℓ} → (ℕ → A) → ℕ → A → ℕ → A
update f p v q = if p == q then v else f q

abbrev pub no_request : CreateRequest
no_request = record {
  media_ids = [];
  targets = [];
  scheduled_at = none;
  publish_immediately = false;
  metadata = none;
}

unfoldable pub new_post : Memory
new_post = record {
  builder = record { req = no_request; errors = [] };
  next = 0;
  instagram = λ p. none;
  youtube = λ p. none;
  maps = λ p. [];
}

abbrev pub on_request : (CreateRequest → CreateRequest) → Memory → Memory
on_request f m = record m { builder = record (m.builder) { req = f m.builder.req } }

abbrev pub add_error : String → Memory → Memory
add_error e m = record m { builder = record (m.builder) { errors = m.builder.errors ++ e ∷ [] } }

unfoldable pub with_media : List String → Memory → Memory
with_media ids m = on_request (λ r. record r { media_ids = r.media_ids ++ ids }) m

-- `now` is what time.Until reads. Times are counted from the zero time; the difference that
-- time.Until takes is compared without its bounds, which are far from a minute.
unfoldable pub schedule_at : (now t : Time) → Memory → Memory
schedule_at now t m =
    if t == 0
    then add_error "builder: ScheduleAt: zero time is invalid" m
    else if ltb t (now + minimum_schedule_delay)
    then add_error "builder: ScheduleAt: time must be at least 1 minute in the future" m
    else on_request (λ r. record r { scheduled_at = some t }) m

unfoldable pub publish_now : Memory → Memory
publish_now m = on_request (λ r. record r { publish_immediately = true }) m

unfoldable pub with_metadata : (key value : String) → Memory → Memory
unfolding set_key update
with_metadata key value m = elim m.builder.req.metadata [
  | none ↦ record m {
    builder = record (m.builder) { req = record (m.builder.req) { metadata = some m.next } };
    next = suc m.next;
    maps = update m.maps m.next ((key, value) ∷ []);
  }
  | some p ↦ record m { maps = update m.maps p (set_key key value (m.maps p)) }
]

abbrev pub no_instagram : InstagramConfig
no_instagram = record {
  format = "";
  caption = "";
  cover_timestamp_secs = none;
  collaborators = [];
  location_id = "";
  share_to_feed = none;
}

abbrev pub no_youtube : YoutubeConfig
no_youtube = record {
  format = "";
  title = "";
  description = "";
  tags = [];
  privacy = "";
  category_id = pos 0;
  playlist_ids = [];
  made_for_kids = false;
  notify_subscribers = false;
}

-- What ForInstagram and ForYouTube note of the account.
unfoldable pub require_account : String → String → Memory → Memory
require_account message account_id m = if str_eq account_id "" then add_error message m else m

-- The new builder stands at the address `next` of the memory before.
unfoldable pub for_instagram : String → Memory → Memory
unfolding require_account update
for_instagram account_id m =
    require_account "builder: ForInstagram: accountID is required" account_id (record m {
      next = suc m.next;
      instagram =
          update m.instagram m.next (some (record { account_id = account_id; t = no_instagram }));
    })

unfoldable pub for_youtube : String → Memory → Memory
unfolding require_account update
for_youtube account_id m =
    require_account "builder: ForYouTube: accountID is required" account_id (record m {
      next = suc m.next;
      youtube = update m.youtube m.next (some (record { account_id = account_id; t = no_youtube }));
    })

-- What Build checks, then a copy of the request, whose pointers are those of the Builder.
unfoldable pub build : Memory → Result String CreateRequest
build m = elim m.builder.errors [
  | e ∷ es ↦ err e
  | [] ↦
      if is_empty m.builder.req.media_ids
      then err "builder: at least one media ID is required"
      else if is_empty m.builder.req.targets
      then err "builder: at least one platform target is required"
      else if is_some m.builder.req.scheduled_at && m.builder.req.publish_immediately
      then err "builder: ScheduleAt and PublishNow are mutually exclusive"
      else ok m.builder.req
]
