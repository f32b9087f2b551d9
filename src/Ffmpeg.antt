-- ===== src/Ffmpeg.antt =====
-- internal/ffmpeg: the presets, the runner and its command line. The process that is run is the
-- parameter `execute` of the number of the call, the binary, the timeout and the arguments.
use Prim.Native.String.{◌++◌}
use socialpublish.Prelude.{ℕ, ◌*◌, String, ◌||◌, List, [], ◌∷◌, if◌then◌else◌, str_eq, Result, err}
use socialpublish.GoText.Print.{itoa}
use socialpublish.Store.Database.{Error, plain, S, outside, named, ◌>>=◌, pure, wrapped}
use socialpublish.Webhook.Signature.{second}
use mathlib.Core.List

pub record Preset : Type 0 where
  pub name : String
  pub width : ℕ
  pub height : ℕ
  pub video_args : List String
  pub audio_args : List String

abbrev pub preset_instagram_reel : Preset
preset_instagram_reel = record {
  name = "instagram_reel";
  width = 1080;
  height = 1920;
  video_args =
      "-c:v" ∷ "libx264" ∷ "-profile:v" ∷ "high" ∷ "-pix_fmt" ∷ "yuv420p" ∷ "-r" ∷ "30" ∷ "-b:v"
      ∷ "8M" ∷ [];
  audio_args = "-c:a" ∷ "aac" ∷ "-b:a" ∷ "128k" ∷ [];
}

abbrev pub preset_instagram_story : Preset
preset_instagram_story = record {
  name = "instagram_story";
  width = 1080;
  height = 1920;
  video_args = "-c:v" ∷ "libx264" ∷ "-pix_fmt" ∷ "yuv420p" ∷ "-r" ∷ "30" ∷ "-b:v" ∷ "6M" ∷ [];
  audio_args = "-c:a" ∷ "aac" ∷ "-b:a" ∷ "128k" ∷ [];
}

abbrev pub preset_youtube_short : Preset
preset_youtube_short = record {
  name = "youtube_short";
  width = 1080;
  height = 1920;
  video_args =
      "-c:v" ∷ "libx264" ∷ "-profile:v" ∷ "high" ∷ "-pix_fmt" ∷ "yuv420p" ∷ "-r" ∷ "30" ∷ "-b:v"
      ∷ "10M" ∷ [];
  audio_args = "-c:a" ∷ "aac" ∷ "-b:a" ∷ "192k" ∷ [];
}

abbrev pub preset_youtube_video : Preset
preset_youtube_video = record {
  name = "youtube_video";
  width = 1920;
  height = 1080;
  video_args =
      "-c:v" ∷ "libx264" ∷ "-profile:v" ∷ "high" ∷ "-pix_fmt" ∷ "yuv420p" ∷ "-r" ∷ "30" ∷ "-b:v"
      ∷ "12M" ∷ [];
  audio_args = "-c:a" ∷ "aac" ∷ "-b:a" ∷ "192k" ∷ [];
}

abbrev pub all_presets : List Preset
all_presets =
    preset_instagram_reel ∷ preset_instagram_story ∷ preset_youtube_short ∷ preset_youtube_video
    ∷ []

pub record Runner : Type 0 where
  pub bin : String
  pub timeout : ℕ

abbrev pub default_timeout : ℕ
default_timeout = 30 * 60 * second

unfoldable pub with_binary : String → Runner → Runner
with_binary bin r = record r { bin = bin }

unfoldable pub with_timeout : ℕ → Runner → Runner
with_timeout timeout r = record r { timeout = timeout }

apply_options : List (Runner → Runner) → Runner → Runner
apply_options [] r = r
apply_options (opt ∷ opts) r = apply_options opts (opt r)

unfoldable pub new_runner : List (Runner → Runner) → Runner
unfolding apply_options
new_runner opts = apply_options opts (record { bin = "ffmpeg"; timeout = default_timeout })

scale_filter : ℕ → ℕ → String
scale_filter width height =
    "scale="
    ++ itoa width
    ++ ":"
    ++ itoa height
    ++ ":force_original_aspect_ratio=decrease,pad="
    ++ itoa width
    ++ ":"
    ++ itoa height
    ++ ":(ow-iw)/2:(oh-ih)/2"

unfoldable pub transcode_args : (input_path output_path : String) → Preset → List String
unfolding scale_filter
transcode_args input_path output_path preset =
    List.◌++◌ ("-y" ∷ "-i" ∷ input_path ∷ "-vf" ∷ scale_filter preset.width preset.height ∷ []) (
      List.◌++◌ preset.video_args
        (List.◌++◌ preset.audio_args ("-movflags" ∷ "+faststart" ∷ output_path ∷ [])))

unfoldable pub transcode :
    (execute : ℕ → String → ℕ → List String → Result Error (Unit {0}))
    → Runner
    → (input_path output_path : String) → Preset
    → S (Result Error (Unit {0}))
transcode execute r input_path output_path preset =
    if str_eq input_path "" || str_eq output_path ""
    then pure (err (plain "ffmpeg transcode: input and output paths are required"))
    else do
      done ← outside λ n. execute n r.bin r.timeout (transcode_args input_path output_path preset)
      pure (wrapped (named "ffmpeg transcode " input_path (" to " ++ output_path)) done)
