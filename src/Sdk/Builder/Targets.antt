-- ===== src/Sdk/Builder/Targets.antt =====
-- The methods of InstagramBuilder and YouTubeBuilder in sdk/services/post/builder.go. Each method
-- but Done changes the configuration that the receiver holds.
use socialpublish.Prelude.{ℕ, String, Bool, none, some, List, [], ◌∷◌, ◌++◌, ℤ}
use socialpublish.Sdk.Post.{
  InstagramConfig, YoutubeConfig, Target, platform_instagram, platform_youtube,
}
use socialpublish.Sdk.Builder.{Memory, InstagramBuilder, YoutubeBuilder, update, on_request}

pub data InstagramCall : Type 0 where
  as_reel : (caption : String) → InstagramCall
  as_story : InstagramCall
  as_carousel : (caption : String) → InstagramCall
  with_cover_timestamp : (secs : ℕ) → InstagramCall
  with_collaborators : List String → InstagramCall
  share_to_feed : Bool → InstagramCall

unfoldable pub configure_instagram : InstagramCall → InstagramConfig → InstagramConfig
configure_instagram (as_reel caption) t = record t { format = "reel"; caption = caption }
configure_instagram as_story t = record t { format = "story" }
configure_instagram (as_carousel caption) t = record t { format = "carousel"; caption = caption }
configure_instagram (with_cover_timestamp secs) t = record t { cover_timestamp_secs = some secs }
configure_instagram (with_collaborators handles) t = record t {
  collaborators = t.collaborators ++ handles;
}
configure_instagram (share_to_feed v) t = record t { share_to_feed = some v }

pub data YoutubeCall : Type 0 where
  as_short : (title description : String) → YoutubeCall
  as_video : (title description : String) → YoutubeCall
  with_privacy : String → YoutubeCall
  with_tags : List String → YoutubeCall
  with_category : ℤ → YoutubeCall
  add_to_playlist : String → YoutubeCall
  made_for_kids : Bool → YoutubeCall
  notify_subscribers : Bool → YoutubeCall

unfoldable pub configure_youtube : YoutubeCall → YoutubeConfig → YoutubeConfig
configure_youtube (as_short title description) t = record t {
  format = "short";
  title = title;
  description = description;
}
configure_youtube (as_video title description) t = record t {
  format = "video";
  title = title;
  description = description;
}
configure_youtube (with_privacy p) t = record t { privacy = p }
configure_youtube (with_tags tags) t = record t { tags = t.tags ++ tags }
configure_youtube (with_category id) t = record t { category_id = id }
configure_youtube (add_to_playlist id) t = record t { playlist_ids = t.playlist_ids ++ id ∷ [] }
configure_youtube (made_for_kids v) t = record t { made_for_kids = v }
configure_youtube (notify_subscribers v) t = record t { notify_subscribers = v }

-- A method of the builder at the address `p`; a program has no address where there is none.
unfoldable pub on_instagram : ℕ → InstagramCall → Memory → Memory
unfolding configure_instagram update
on_instagram p call m = elim (m.instagram p) [
  | none ↦ m
  | some b ↦ record m {
    instagram = update m.instagram p (some (record b { t = configure_instagram call b.t }));
  }
]

unfoldable pub on_youtube : ℕ → YoutubeCall → Memory → Memory
unfolding configure_youtube update
on_youtube p call m = elim (m.youtube p) [
  | none ↦ m
  | some b ↦ record m {
    youtube = update m.youtube p (some (record b { t = configure_youtube call b.t }));
  }
]

abbrev pub instagram_target : ℕ → InstagramBuilder → Target
instagram_target p b = record {
  account_id = b.account_id;
  platform = platform_instagram;
  instagram = some p;
  youtube = none;
}

abbrev pub youtube_target : ℕ → YoutubeBuilder → Target
youtube_target p b = record {
  account_id = b.account_id;
  platform = platform_youtube;
  instagram = none;
  youtube = some p;
}

unfoldable pub instagram_done : ℕ → Memory → Memory
instagram_done p m = elim (m.instagram p) [
  | none ↦ m
  | some b ↦ on_request (λ r. record r { targets = r.targets ++ instagram_target p b ∷ [] }) m
]

unfoldable pub youtube_done : ℕ → Memory → Memory
youtube_done p m = elim (m.youtube p) [
  | none ↦ m
  | some b ↦ on_request (λ r. record r { targets = r.targets ++ youtube_target p b ∷ [] }) m
]
