-- ===== src/Sdk/Builder/Calls.antt =====
-- The calls that a program may make of a Builder and of the platform builders it gives, in any
-- order, and the chains `ForInstagram(…).….Done()` that the package is meant for.
use socialpublish.Prelude.{ℕ, String, List, [], ◌∷◌}
use socialpublish.Store.Types.{Time}
use socialpublish.Sdk.Builder
use socialpublish.Sdk.Builder.{Memory}
use socialpublish.Sdk.Builder.Targets
use socialpublish.Sdk.Builder.Targets.{InstagramCall, YoutubeCall, on_instagram, on_youtube}

pub data Call : Type 0 where
  with_media : List String → Call
  schedule_at : (now t : Time) → Call
  publish_now : Call
  with_metadata : (key value : String) → Call
  for_instagram : (account_id : String) → Call
  for_youtube : (account_id : String) → Call
  instagram : ℕ → InstagramCall → Call
  youtube : ℕ → YoutubeCall → Call
  instagram_done : ℕ → Call
  youtube_done : ℕ → Call

unfoldable pub perform : Call → Memory → Memory
perform (with_media ids) = Builder.with_media ids
perform (schedule_at now t) = Builder.schedule_at now t
perform publish_now = Builder.publish_now
perform (with_metadata key value) = Builder.with_metadata key value
perform (for_instagram account_id) = Builder.for_instagram account_id
perform (for_youtube account_id) = Builder.for_youtube account_id
perform (instagram p call) = on_instagram p call
perform (youtube p call) = on_youtube p call
perform (instagram_done p) = Targets.instagram_done p
perform (youtube_done p) = Targets.youtube_done p

unfoldable pub run : List Call → Memory → Memory
unfolding perform
run [] m = m
run (c ∷ cs) m = run cs (perform c m)

-- One statement of a program that uses each platform builder in one chain.
pub data Chain : Type 0 where
  with_media : List String → Chain
  schedule_at : (now t : Time) → Chain
  publish_now : Chain
  with_metadata : (key value : String) → Chain
  for_instagram : (account_id : String) → List InstagramCall → Chain
  for_youtube : (account_id : String) → List YoutubeCall → Chain

unfoldable pub instagram_calls : ℕ → List InstagramCall → Memory → Memory
instagram_calls p [] m = m
instagram_calls p (c ∷ cs) m = instagram_calls p cs (on_instagram p c m)

unfoldable pub youtube_calls : ℕ → List YoutubeCall → Memory → Memory
youtube_calls p [] m = m
youtube_calls p (c ∷ cs) m = youtube_calls p cs (on_youtube p c m)

unfoldable pub follow : Chain → Memory → Memory
unfolding instagram_calls youtube_calls
follow (with_media ids) m = Builder.with_media ids m
follow (schedule_at now t) m = Builder.schedule_at now t m
follow publish_now m = Builder.publish_now m
follow (with_metadata key value) m = Builder.with_metadata key value m
follow (for_instagram account_id calls) m =
    Targets.instagram_done m.next
      (instagram_calls m.next calls (Builder.for_instagram account_id m))
follow (for_youtube account_id calls) m =
    Targets.youtube_done m.next (youtube_calls m.next calls (Builder.for_youtube account_id m))

unfoldable pub follow_all : List Chain → Memory → Memory
unfolding follow
follow_all [] m = m
follow_all (c ∷ cs) m = follow_all cs (follow c m)
