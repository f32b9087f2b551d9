-- ===== src/Store/Posts/Metadata.antt =====
-- internal/store/postgres.go: what postStore.Get reads after postStore.Update, which joins the
-- metadata by the operator || of jsonb.
use socialpublish.Prelude.{suc, String, ok, err, ◌≡◌, refl, ◌∙◌}
use socialpublish.Store.Json.{Json, null, object, Fields, concat, as_map, merge_fields}
use socialpublish.Store.Types.{Post}
use socialpublish.Store.Database.{World, Env, IsUp, Error, query, wrap, wrapped, named, one_row}
use socialpublish.Store.Database.Rows.{one_row-update_where}
use socialpublish.Store.Posts.{post_is, scan_found, scan_post, get, update}

module _ {env : Env} (up : IsUp env) (post_id : String) (fields : Json) (w : World) (p : Post)
    (found : one_row (post_is post_id) w.posts ≡ ok p) where
  -- The post that the update leaves.
  abbrev updated : Post
  updated = record p { metadata = concat p.metadata fields; updated_at = env.now w.calls }

  get-updated :
      (get env post_id (update env post_id fields w).1).0
      ≡ wrapped (named "scan post " post_id "") (scan_post updated)
  unfolding get update scan_found query
  get-updated =
      rw
        (
          up.answers w.calls,
          up.answers (suc w.calls),
          one_row-update_where (post_is post_id)
              (λ (q : Post). record q {
                metadata = concat q.metadata fields;
                updated_at = env.now w.calls;
              })
              w.posts (λ x. refl) found,
        )
        refl

  -- If the database answers, a post whose metadata is an object is read after an update by an
  -- object with the fields of both, those of the update first, and is otherwise the same but for
  -- its time of update.
  pub get-update :
      (old new : Fields)
      → p.metadata ≡ object old
      → fields ≡ object new
      → (get env post_id (update env post_id fields w).1).0
        ≡ ok (record p { metadata = object (merge_fields old new); updated_at = env.now w.calls })
  unfolding scan_post concat as_map
  get-update old new e f = get-updated ∙ rw (e, f) refl

  -- If the database answers, a post whose stored metadata is the JSON null cannot be read any more
  -- after an update, by whatever fields.
  pub get-update-null :
      p.metadata ≡ null
      → (get env post_id (update env post_id fields w).1).0
        ≡ err (wrap (named "scan post " post_id "") Error.bad_column)
  unfolding scan_post concat as_map
  get-update-null e = get-updated ∙ rw e refl
