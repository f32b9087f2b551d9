-- ===== src/Worker/Transcode/Recorded.antt =====
-- What internal/worker/transcode.go leaves in the table of media, and what mediaStore.Get of
-- internal/store/postgres.go reads of it.
use socialpublish.Prelude.{String, none, some, List, Result, ok, err, ◌≡◌, refl, ℕ, arith}
use socialpublish.Store.Json.{text, object, field, end}
use socialpublish.Store.Types.{Time, MediaRow}
use socialpublish.Store.Database.{
  World, Env, IsUp, ScansText, Error, bad_column, wrap, S, ◌>>=◌, outside, query, wrapped, named,
  one_row, error_text,
}
use socialpublish.Store.Database.Rows.{one_row-update_where}
use socialpublish.Store.Media.{media_is, get_media, scan_media, mark_ready, mark_failed}
use socialpublish.Ffmpeg.{Runner, transcode}
use socialpublish.Worker.Transcode.{TranscodePayload, process_transcode}

module _ (env : Env) (execute : ℕ → String → ℕ → List String → Result Error (Unit {0}))
    (ff : Runner) (payload : TranscodePayload) where
  -- The run of ffmpeg that a task makes.
  abbrev pub ran : S (Result Error (Unit {0}))
  ran = transcode execute ff payload.input_path payload.output_path payload.preset

  -- The media after a run that ended at a time.
  pub recorded : Result Error (Unit {0}) → Time → MediaRow → MediaRow
  recorded (ok _) at_time m = record m {
    status = "ready";
    formats = object (field payload.preset.name (text payload.output_path) end);
    thumbnail_key = some "";
    updated_at = at_time;
  }
  recorded (err e) at_time m = record m {
    status = "failed";
    error_message = some (error_text env e);
    updated_at = at_time;
  }

  -- The result of the task for that of the run.
  pub reported : Result Error (Unit {0}) → Result Error (Unit {0})
  reported done = wrapped (named "transcode media " payload.media_id "") done

  ran-media : (w : World) → (ran w).1.media ≡ w.media
  unfolding transcode ◌>>=◌ outside
  ran-media w = ground arith

  get_media-unscanned :
      IsUp env
      → (v : World) (r : MediaRow) → one_row (media_is payload.media_id) v.media ≡ ok r
      → scan_media env r ≡ none
      → (get_media env payload.media_id v).0
        ≡ err (wrap (named "scan media " payload.media_id "") bad_column)
  unfolding get_media query
  get_media-unscanned up v r found unscanned = rw (up.answers v.calls, found) cc

  module _ (w : World) (m : MediaRow) where
    -- What holds of the outcome of a task whose run has the outcome `r`.
    IsRecorded : (r outcome : Result Error (Unit {0}) × World) → Type 0
    unfolding reported recorded
    IsRecorded r outcome =
        (outcome.0 ≡ reported r.0)
        × (one_row (media_is payload.media_id) outcome.1.media
            ≡ ok (recorded r.0 (env.now r.1.calls) m))

    ran-IsRecorded :
        IsUp env
        → (r : Result Error (Unit {0}) × World) → ran w ≡ r
        → one_row (media_is payload.media_id) r.1.media ≡ ok m
        → IsRecorded r (process_transcode env execute ff (some payload) w)
    unfolding process_transcode ◌>>=◌ mark_ready mark_failed query reported recorded IsRecorded
    ran-IsRecorded up (ok tt, v) e kept =
        rw (e, up.answers v.calls) (refl, one_row-update_where _ _ v.media (λ x. refl) kept)
    ran-IsRecorded up (err x, v) e kept =
        rw (e, up.answers v.calls) (refl, one_row-update_where _ _ v.media (λ x. refl) kept)

    -- If the database answers and has the media: the task succeeds exactly as its run of ffmpeg does,
    -- whose error it returns under the identifier of the media, and the media is then ready with the
    -- output under the name of the preset and an empty thumbnail key, or failed with the text of the
    -- error of the run, and otherwise the same but for its time of update.
    pub process_transcode-recorded :
        IsUp env
        → one_row (media_is payload.media_id) w.media ≡ ok m
        → (process_transcode env execute ff (some payload) w).0 ≡ reported (ran w).0
          × (one_row
                (media_is payload.media_id)
                (process_transcode env execute ff (some payload) w).1.media
              ≡ ok (recorded (ran w).0 (env.now (ran w).1.calls) m))
    unfolding IsRecorded
    process_transcode-recorded up found = ran-IsRecorded up (ran w) refl (rw (ran-media w) found)

    module _ (scans : ScansText env) (bare : m.thumbnail_key ≡ none)
        (unfailed : m.error_message ≡ none) where
      scan_media-recorded :
          (done : Result Error (Unit {0})) (at_time : Time)
          → scan_media env (recorded done at_time m) ≡ none
      unfolding scan_media recorded
      scan_media-recorded (ok _) at_time =
          rw (scan_media, scans.scans "", unfailed, scans.refuses) refl
      scan_media-recorded (err e) at_time = rw (scan_media, bare, scans.refuses) refl

      -- With pgx refusing NULL for a string and a database that answers: a media that is stored
      -- without a thumbnail and without an error cannot be read behind the task, whatever the run
      -- of ffmpeg did.
      pub get_media-transcoded :
          IsUp env
          → one_row (media_is payload.media_id) w.media ≡ ok m
          → (get_media env payload.media_id (process_transcode env execute ff (some payload) w).1).0
            ≡ err (wrap (named "scan media " payload.media_id "") bad_column)
      get_media-transcoded up found =
          get_media-unscanned up (process_transcode env execute ff (some payload) w).1
            (recorded (ran w).0 (env.now (ran w).1.calls) m) (process_transcode-recorded up found).1
            (scan_media-recorded (ran w).0 (env.now (ran w).1.calls))
