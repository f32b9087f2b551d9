-- ===== src/Worker/Transcode.antt =====
-- internal/worker/transcode.go: transcodeHandler.ProcessTask.
pub mod Recorded
use socialpublish.Prelude.{ℕ, String, List, Option, none, some, Result, ok, err}
use socialpublish.Store.Json.{text, object, field, end}
use socialpublish.Store.Database.{
  Env, Error, wrap, wrap_noted, skip, S, ◌>>=◌, pure, on_result, or_return, named, error_text,
}
use socialpublish.Store.Media.{mark_ready, mark_failed}
use socialpublish.Ffmpeg.{Preset, Runner, transcode}

pub record TranscodePayload : Type 0 where
  pub media_id : String
  pub input_path : String
  pub output_path : String
  pub preset : Preset

module _ (env : Env) (execute : ℕ → String → ℕ → List String → Result Error (Unit {0}))
    (ff : Runner) where
  -- The failure is recorded; where that fails too, the error says so behind the first one's text.
  unfoldable pub record_failed : TranscodePayload → Error → S (Result Error (Unit {0}))
  record_failed payload e = do
    marked ← mark_failed env payload.media_id (error_text env e)
    on_result marked
        (λ m. pure (
          err (
            wrap_noted (named "transcode media " payload.media_id "") e
              (named " (mark failed: " (error_text env m) ")"))))
        λ _. pure (err (wrap (named "transcode media " payload.media_id "") e))

  unfoldable pub record_ready : TranscodePayload → S (Result Error (Unit {0}))
  record_ready payload = do
    marked ←
        mark_ready env payload.media_id
          (object (field payload.preset.name (text payload.output_path) end)) ""
    or_return marked (wrap (named "mark media " payload.media_id " ready")) λ _. pure (ok tt)

  unfoldable pub process_transcode : Option TranscodePayload → S (Result Error (Unit {0}))
  unfolding record_failed record_ready
  process_transcode none = pure (err (skip "unmarshal transcode payload"))
  process_transcode (some payload) = do
    done ← transcode execute ff payload.input_path payload.output_path payload.preset
    on_result done (record_failed payload) λ _. record_ready payload
