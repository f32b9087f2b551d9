-- ===== src/Store/Posts/Laws.antt =====
-- internal/store/postgres.go: what the operations of postStore do to the tables, and which rows
-- they can read.
use socialpublish.Prelude.{
  ℕ, suc, ◌+◌, ◌≤◌, String, true, none, List, [], ◌∷◌, take, length, str_eq_iff, Result, ok, err,
  Result-cases, select, All, All-take, ℤ, ◌≡◌, refl, ap, subst, arith, Option-cases, inl, inr,
}
use socialpublish.Store.Types.{Post, TargetRow}
use socialpublish.Store.Database.{
  World, Env, ScansText, Error, query, wrap, named, wrapped, one_row, next_rows, order_desc,
  page_limit, page_of,
}
use socialpublish.Store.Database.Rows.{
  one_row-All, All-selected, All-order_desc, length-page_of, page_of-All, query-failed,
}
use socialpublish.Store.Posts.{
  target_is, scan_post, scan_posts, scan_target, scan_one, get_target, list, listed,
}

-- A row that was never published: pgx reads it into no PostTarget.
abbrev pub IsUnpublished : TargetRow → Type 0
IsUnpublished t = t.platform_post_id ≡ none

module _ (env : Env) (scans : ScansText env) where
  pub scan_target-unpublished : (t : TargetRow) → IsUnpublished t → scan_target env t ≡ none
  unfolding scan_target
  scan_target-unpublished t h = ground (arith, scans.refuses)

  scan_one-unpublished :
      (r : Result Error TargetRow)
      → ((t : TargetRow) → r ≡ ok t → IsUnpublished t)
      → (e : Error) × (scan_one env r ≡ err e)
  unfolding scan_one
  scan_one-unpublished (err e) h = (e, refl)
  scan_one-unpublished (ok t) h =
      (Error.bad_column, ground (arith, scan_target-unpublished t (h t refl)))

  -- With pgx refusing NULL for a string: as long as no target has a platform post, GetTarget fails
  -- for every identifier, and leaves the tables alone.
  pub get_target-unpublished :
      (target_id : String) (w : World)
      → All IsUnpublished w.targets
      → (e : Error) × (get_target env target_id w ≡ (err e, record w { calls = suc w.calls }))
  unfolding get_target
  get_target-unpublished target_id w h =
      let row = one_row (target_is target_id) w.targets in
      let (e, failed) =
        scan_one-unpublished row
          (λ t. one_row-All IsUnpublished (target_is target_id) w.targets h) in
      query-failed env _ _ w (wrap (named "scan post target " target_id "") e, rw (failed, wrapped))

abbrev pub BelongsTo : String → Post → Type 0
BelongsTo workspace_id p = p.workspace_id ≡ workspace_id

scan_posts-BelongsTo :
    (workspace_id : String) (rows items : List Post)
    → All (BelongsTo workspace_id) rows
    → scan_posts rows ≡ ok items
    → All (BelongsTo workspace_id) items
unfolding scan_posts scan_post
scan_posts-BelongsTo workspace_id rows [] h e = tt
scan_posts-BelongsTo workspace_id [] (q ∷ qs) h e = absurd (cc)
scan_posts-BelongsTo workspace_id (p ∷ ps) (q ∷ qs) (b, h) e =
    (ground arith, scan_posts-BelongsTo workspace_id ps qs h (ground arith))

module _ (env : Env) (workspace_id : String) (limit : ℤ) (cursor : String) where
  -- The rows that the statement of List selects, in order.
  list_rows : World → List Post
  list_rows w =
      take (page_limit limit + 1)
        (order_desc (λ p. p.created_at) (select (listed env workspace_id cursor) w.posts))

  listed-BelongsTo :
      (ps : List Post)
      → All (λ p. listed env workspace_id cursor p ≡ true) ps
      → All (BelongsTo workspace_id) ps
  listed-BelongsTo [] h = tt
  listed-BelongsTo (p ∷ ps) (q, h) =
      (ground (arith, str_eq_iff p.workspace_id workspace_id), listed-BelongsTo ps h)

  next_rows-All :
      (n : ℕ) (rows : List Post)
      → All (BelongsTo workspace_id) rows
      → All (BelongsTo workspace_id) (next_rows env n rows)
  unfolding next_rows
  next_rows-All n rows h = elim (Option-cases (env.broken n)) [
    | inl e ↦ rw (e, next_rows) h
    | inr (k, e) ↦ rw (e, next_rows) (All-take (BelongsTo workspace_id) k rows h)
  ]

  list_rows-BelongsTo : (w : World) → All (BelongsTo workspace_id) (list_rows w)
  unfolding list_rows
  list_rows-BelongsTo w = All-take (BelongsTo workspace_id) (page_limit limit + 1) _ (
      All-order_desc (BelongsTo workspace_id) (λ p. p.created_at) _
        (listed-BelongsTo _ (All-selected (listed env workspace_id cursor) w.posts)))

  list_page :
      (w : World) (page : List Post × String)
      → (list env workspace_id limit cursor w).0 ≡ ok page
      → (items : List Post) × (scan_posts (next_rows env w.calls (list_rows w)) ≡ ok items)
        × (page_of (λ p. p.id) (page_limit limit) items ≡ page)
  unfolding list query list_rows
  list_page w page h = elim (Result-cases (scan_posts (next_rows env w.calls (list_rows w)))) [
    | inl (items, e) ↦ (items, e, ground arith)
    | inr (e, f) ↦ absurd (ground arith)
  ]

  -- Whatever fails, a page of posts that List returns holds at most the limit (20 if it is not
  -- positive), and only posts of the workspace.
  pub list-BelongsTo :
      (w : World) (items : List Post) (next : String)
      → (list env workspace_id limit cursor w).0 ≡ ok (items, next)
      → All (BelongsTo workspace_id) items × (length items ≤ page_limit limit)
  list-BelongsTo w items next h =
      let (rows, e, page) = list_page w (items, next) h in
      let here : (page_of (λ (p : Post). p.id) (page_limit limit) rows).0 ≡ items =
        ap (λ (x : List Post × String). x.0) page in
      (
        subst (All (BelongsTo workspace_id)) here (
            page_of-All (BelongsTo workspace_id) (λ p. p.id) (page_limit limit) rows
              (scan_posts-BelongsTo workspace_id _ rows
                (next_rows-All w.calls (list_rows w) (list_rows-BelongsTo w)) e)),
        subst (λ (l : List Post). length l ≤ page_limit limit) here
            (length-page_of (λ p. p.id) (page_limit limit) rows),
      )
