-- ===== src/Store/Media.antt =====
-- internal/store/postgres.go: mediaStore.
use socialpublish.Prelude.{
  ℕ, ◌+◌, String, Bool, not, ◌&&◌, ◌||◌, Option, none, some, List, [], ◌∷◌, ◌++◌, take,
  if◌then◌else◌, str_eq, Result, ok, err, select, ℤ,
}
use socialpublish.Store.Json.{Json, object, end}
use socialpublish.Store.Types.{Time, Workspace, MediaRow, Media}
use socialpublish.Store.Database.{
  World, Env, Error, failure, bad_column, plain, wrap, S, call, query, wrapped, collect_rows,
  one_row, update_where, exists_row, order_desc, named, page_limit, page_of,
}

abbrev pub media_is : String → MediaRow → Bool
media_is id m = str_eq m.id id

module _ (env : Env) where
  -- pgx.RowToStructByName[Media]
  unfoldable pub scan_media : MediaRow → Option Media
  scan_media m = elim (env.scan_text m.thumbnail_key) [
    | none ↦ none
    | some thumbnail_key ↦ elim (env.scan_text m.error_message) [
      | none ↦ none
      | some error_message ↦ some (record {
        id = m.id;
        workspace_id = m.workspace_id;
        status = m.status;
        media_type = m.media_type;
        original_key = m.original_key;
        mime_type = m.mime_type;
        size_bytes = m.size_bytes;
        duration_ms = m.duration_ms;
        formats = m.formats;
        thumbnail_key = thumbnail_key;
        error_message = error_message;
        created_at = m.created_at;
        updated_at = m.updated_at;
      })
    ]
  ]

  scan_one : Result Error MediaRow → Result Error Media
  scan_one (err e) = err e
  scan_one (ok m) = elim (scan_media m) [ none ↦ err bad_column | some r ↦ ok r ]

  scan_all : List MediaRow → Result Error (List Media)
  scan_all [] = ok []
  scan_all (m ∷ ms) = elim (scan_media m) [
    | none ↦ err bad_column
    | some r ↦ elim (scan_all ms) [ err e ↦ err e | ok rs ↦ ok (r ∷ rs) ]
  ]

  scan_collected : Result Error (List MediaRow) → Result Error (List Media)
  unfolding scan_all
  scan_collected (err e) = err e
  scan_collected (ok rows) = scan_all rows

  unfoldable pub get_media : String → S (Result Error Media)
  unfolding scan_one scan_media
  get_media media_id = query env (named "query media " media_id "") λ n w. (
    wrapped (named "scan media " media_id "") (scan_one (one_row (media_is media_id) w.media)),
    w,
  )

  unfoldable pub list_media :
      (workspace_id : String) (limit : ℤ) (cursor : String) → S (Result Error (List Media × String))
  unfolding scan_collected scan_media
  list_media workspace_id limit cursor = query env "list media" λ n w.
      let rows = take (page_limit limit + 1) (
        order_desc (λ m. m.created_at)
          (select
            (λ (m : MediaRow).
              str_eq m.workspace_id workspace_id
              && (str_eq cursor "" || env.text_before m.id cursor))
            w.media)) in
      (
        elim (scan_collected (collect_rows env n rows)) [
          | err e ↦ err (wrap "scan media" e)
          | ok items ↦ ok (page_of (λ m. m.id) (page_limit limit) items)
        ],
        w,
      )

  -- INSERT INTO media: the columns that the statement does not name take their defaults.
  unfoldable pub new_media :
      (id workspace_id status media_type original_key mime_type : String) (size_bytes : ℕ)
      (created_at : Time)
      → MediaRow
  new_media id workspace_id status media_type original_key mime_type size_bytes created_at =
      record {
        id = id;
        workspace_id = workspace_id;
        status = status;
        media_type = media_type;
        original_key = original_key;
        mime_type = mime_type;
        size_bytes = size_bytes;
        duration_ms = none;
        formats = object end;
        thumbnail_key = none;
        error_message = none;
        created_at = created_at;
        updated_at = created_at;
      }

  unfoldable pub create_media :
      (workspace_id status media_type original_key mime_type : String) (size_bytes : ℕ)
      → S (Result Error String)
  unfolding new_media
  create_media workspace_id status media_type original_key mime_type size_bytes = call env λ n w.
      if exists_row (λ (ws : Workspace). str_eq ws.id workspace_id) w.workspaces
      then (
        ok (env.fresh n),
        record w {
          media =
              w.media
              ++ new_media (env.fresh n) workspace_id status media_type original_key mime_type
                  size_bytes (env.now n)
                ∷ [];
        },
      )
      else (err failure, w)

  unfoldable pub delete_media : String → S (Result Error (Unit {0}))
  delete_media media_id = query env (named "delete media " media_id "") λ n w.
      if exists_row (media_is media_id) w.media
      then (ok tt, record w { media = select (λ m. not (media_is media_id m)) w.media })
      else (err (plain (named "media " media_id " not found")), w)

  -- UPDATE media SET … WHERE id = …
  update_media : (media_id : String) → (MediaRow → MediaRow) → World → World
  update_media media_id f w = record w { media = update_where (media_is media_id) f w.media }

  unfoldable pub mark_ready :
      (media_id : String) (formats : Json) (thumbnail_key : String) → S (Result Error (Unit {0}))
  unfolding update_media
  mark_ready media_id formats thumbnail_key =
      query env (named "mark media " media_id " ready") λ n w. (
        ok tt,
        update_media media_id
            (λ m. record m {
              status = "ready";
              formats = formats;
              thumbnail_key = some thumbnail_key;
              updated_at = env.now n;
            })
            w,
      )

  unfoldable pub mark_failed : (media_id reason : String) → S (Result Error (Unit {0}))
  unfolding update_media
  mark_failed media_id reason = query env (named "mark media " media_id " failed") λ n w. (
    ok tt,
    update_media media_id
        (λ m. record m { status = "failed"; error_message = some reason; updated_at = env.now n })
        w,
  )

  unfoldable pub set_thumbnail : (media_id thumbnail_key : String) → S (Result Error (Unit {0}))
  unfolding update_media
  set_thumbnail media_id thumbnail_key = query env (named "set thumbnail media " media_id "") λ n w.
      (
        ok tt,
        update_media media_id
            (λ m. record m { thumbnail_key = some thumbnail_key; updated_at = env.now n }) w,
      )
