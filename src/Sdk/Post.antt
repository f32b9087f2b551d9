-- ===== src/Sdk/Post.antt =====
-- sdk/services/post/types.go. A float64 is its bit pattern, `none` stands for a nil pointer; the
-- pointers of a Target are addresses of the memory that Sdk/Builder.antt describes.
use socialpublish.Prelude.{
  ℕ, String, Bool, true, false, not, Option, none, some, List, [], ◌∷◌, ℤ, str_eq, is_empty,
  if◌then◌else◌,
}
use socialpublish.Store.Types.{Time}

abbrev pub platform_instagram : String
platform_instagram = "instagram"

abbrev pub platform_youtube : String
platform_youtube = "youtube"

abbrev pub status_published : String
status_published = "published"

pub record InstagramConfig : Type 0 where
  pub format : String
  pub caption : String
  pub cover_timestamp_secs : Option ℕ
  pub collaborators : List String
  pub location_id : String
  pub share_to_feed : Option Bool

pub record YoutubeConfig : Type 0 where
  pub format : String
  pub title : String
  pub description : String
  pub tags : List String
  pub privacy : String
  pub category_id : ℤ
  pub playlist_ids : List String
  pub made_for_kids : Bool
  pub notify_subscribers : Bool

pub record Target : Type 0 where
  pub account_id : String
  pub platform : String
  pub instagram : Option ℕ
  pub youtube : Option ℕ

-- `metadata` is the address of the map, if it was made.
pub record CreateRequest : Type 0 where
  pub media_ids : List String
  pub targets : List Target
  pub scheduled_at : Option Time
  pub publish_immediately : Bool
  pub metadata : Option ℕ

pub record TargetStatus : Type 0 where
  pub account_id : String
  pub platform : String
  pub status : String
  pub platform_post_id : String
  pub permalink : String
  pub published_at : Option Time
  pub failure_reason : String
  pub attempt_count : ℤ

pub record Post : Type 0 where
  pub id : String
  pub status : String
  pub media_ids : List String
  pub targets : List TargetStatus
  pub scheduled_at : Option Time
  pub published_at : Option Time
  pub metadata : List (String × String)
  pub created_at : Time
  pub updated_at : Time

pub record ListParams : Type 0 where
  pub limit : ℤ
  pub cursor : String
  pub status : String
  pub platform : String
  pub from : Option Time
  pub to : Option Time

-- Whether the loop over the targets met none that is not published.
all_published : List TargetStatus → Bool
all_published [] = true
all_published (t ∷ ts) =
    let rest = all_published ts in if str_eq t.status status_published then rest else false

unfoldable pub is_fully_published : Post → Bool
unfolding all_published
is_fully_published p = if all_published p.targets then not (is_empty p.targets) else false

first_for : String → List TargetStatus → Option TargetStatus
first_for platform [] = none
first_for platform (t ∷ ts) =
    let rest = first_for platform ts in if str_eq t.platform platform then some t else rest

unfoldable pub target_for : Post → String → Option TargetStatus
unfolding first_for
target_for p platform = first_for platform p.targets
