-- ===== src/Store/Posts.antt =====
-- internal/store/postgres.go: postStore, over the tables of posts and post targets with the
-- constraints of the migrations.
pub mod Laws
pub mod Metadata
use Prim.Native.String
use socialpublish.Prelude.{
  ℕ, suc, ◌+◌, ◌-◌, ◌≤◌, String, Bool, true, false, not, ◌&&◌, ◌||◌, Option, none, some, List, [],
  ◌∷◌, ◌++◌, map, take, length, if◌then◌else◌, str_eq, ltb, leb, Result, ok, err, select, ℤ, pos,
  negsuc,
}
use socialpublish.Store.Json.{Json, null, object, concat, as_map}
use socialpublish.Store.Types.{
  Time, Workspace, Account, Post, TargetRow, PostTarget, AnalyticsSnapshot,
}
use socialpublish.Store.Database.{
  World, Env, Error, failure, bad_column, plain, wrap, S, call, query, wrapped, collect_rows,
  next_rows, one_row, update_where, exists_row, order_desc, named, page_limit, page_of, order_asc,
  is_between,
}

abbrev pub post_is : String → Post → Bool
post_is id p = str_eq p.id id

abbrev pub target_is : String → TargetRow → Bool
target_is id t = str_eq t.id id

-- row.Scan into a Post: only the metadata may not fit.
scan_post : Post → Result Error Post
scan_post p = elim (as_map p.metadata) [
  | none ↦ err bad_column
  | some m ↦ ok (record p { metadata = m })
]

scan_posts : List Post → Result Error (List Post)
scan_posts [] = ok []
scan_posts (p ∷ ps) = elim (scan_post p) [
  | err e ↦ err e
  | ok q ↦ elim (scan_posts ps) [ err e ↦ err e | ok qs ↦ ok (q ∷ qs) ]
]

scan_found : Result Error Post → Result Error Post
scan_found (ok p) = scan_post p
scan_found (err e) = err e

module _ (env : Env) where
  -- pgx.RowToStructByName[PostTarget]
  unfoldable pub scan_target : TargetRow → Option PostTarget
  scan_target t = elim (env.scan_text t.platform_post_id) [
    | none ↦ none
    | some platform_post_id ↦ elim (env.scan_text t.permalink) [
      | none ↦ none
      | some permalink ↦ elim (env.scan_text t.failure_reason) [
        | none ↦ none
        | some failure_reason ↦ some (record {
          id = t.id;
          post_id = t.post_id;
          account_id = t.account_id;
          platform = t.platform;
          format = t.format;
          config = t.config;
          status = t.status;
          platform_post_id = platform_post_id;
          permalink = permalink;
          failure_reason = failure_reason;
          attempt_count = t.attempt_count;
          last_attempted_at = t.last_attempted_at;
          published_at = t.published_at;
        })
      ]
    ]
  ]

  scan_one : Result Error TargetRow → Result Error PostTarget
  scan_one (err e) = err e
  scan_one (ok t) = elim (scan_target t) [ none ↦ err bad_column | some r ↦ ok r ]

  unfoldable pub scan_targets : List TargetRow → Result Error (List PostTarget)
  scan_targets [] = ok []
  scan_targets (t ∷ ts) = elim (scan_target t) [
    | none ↦ err bad_column
    | some r ↦ elim (scan_targets ts) [ err e ↦ err e | ok rs ↦ ok (r ∷ rs) ]
  ]

  unfoldable pub get : String → S (Result Error Post)
  unfolding scan_found scan_post
  get post_id = query env (named "scan post " post_id "") λ n w.
      (wrapped (named "scan post " post_id "") (scan_found (one_row (post_is post_id) w.posts)), w)

  unfoldable pub get_target : String → S (Result Error PostTarget)
  unfolding scan_one scan_target
  get_target target_id = query env (named "query post target " target_id "") λ n w. (
    wrapped (named "scan post target " target_id "")
        (scan_one (one_row (target_is target_id) w.targets)),
    w,
  )

  unfoldable pub set_target_failed : (target_id reason : String) → S (Result Error (Unit {0}))
  set_target_failed target_id reason = query env (named "set target " target_id " failed") λ n w. (
    ok tt,
    record w {
      targets =
          update_where (target_is target_id)
            (λ t. record t {
              status = "failed";
              failure_reason = some reason;
              attempt_count = t.attempt_count + 1;
              last_attempted_at = some (env.now n);
            })
            w.targets;
    },
  )

  unfoldable pub set_target_published :
      (target_id platform_post_id permalink : String) → S (Result Error (Unit {0}))
  set_target_published target_id platform_post_id permalink =
      query env (named "set target " target_id " published") λ n w. (
        ok tt,
        record w {
          targets =
              update_where (target_is target_id)
                (λ t. record t {
                  status = "published";
                  platform_post_id = some platform_post_id;
                  permalink = some permalink;
                  published_at = some (env.now n);
                })
                w.targets;
        },
      )

  -- WHERE workspace_id = … AND (cursor = '' OR id::text < cursor)
  abbrev pub listed : (workspace_id cursor : String) → Post → Bool
  listed workspace_id cursor p =
      str_eq p.workspace_id workspace_id && (str_eq cursor "" || env.text_before p.id cursor)

  -- The page is cut from one row more than the limit.
  unfoldable pub list :
      (workspace_id : String) (limit : ℤ) (cursor : String) → S (Result Error (List Post × String))
  unfolding scan_posts scan_post
  list workspace_id limit cursor = query env "list posts" λ n w.
      let rows =
        take (page_limit limit + 1)
          (order_desc (λ p. p.created_at) (select (listed workspace_id cursor) w.posts)) in
      (
        elim (scan_posts (next_rows env n rows)) [
          | err e ↦ err (wrap "scan post" e)
          | ok items ↦ ok (page_of (λ p. p.id) (page_limit limit) items)
        ],
        w,
      )

  -- INSERT INTO posts: the workspace must exist; the metadata of a nil map is JSON null.
  unfoldable pub create :
      (workspace_id status : String) (media_ids : List String) (scheduled_at : Option Time)
      (metadata : Json)
      → S (Result Error Post)
  create workspace_id status media_ids scheduled_at metadata = call env λ n w.
      let p : Post = record {
        id = env.fresh n;
        workspace_id = workspace_id;
        status = status;
        media_ids = media_ids;
        scheduled_at = scheduled_at;
        published_at = none;
        metadata = metadata;
        created_at = env.now n;
        updated_at = env.now n;
      } in
      if exists_row (λ (ws : Workspace). str_eq ws.id workspace_id) w.workspaces
      then (ok p, record w { posts = w.posts ++ p ∷ [] })
      else (err failure, w)

  unfoldable pub update : (post_id : String) (fields : Json) → S (Result Error (Unit {0}))
  update post_id fields = query env (named "update post " post_id "") λ n w. (
    ok tt,
    record w {
      posts =
          update_where (post_is post_id)
            (λ p. record p { metadata = concat p.metadata fields; updated_at = env.now n }) w.posts;
    },
  )

  -- The targets and the snapshots of the post go with it.
  unfoldable pub delete : String → S (Result Error (Unit {0}))
  delete post_id = query env (named "delete post " post_id "") λ n w.
      if exists_row (post_is post_id) w.posts
      then (
        ok tt,
        record w {
          posts = select (λ p. not (post_is post_id p)) w.posts;
          targets = select (λ (t : TargetRow). not (str_eq t.post_id post_id)) w.targets;
          snapshots =
              select (λ (s : AnalyticsSnapshot). not (str_eq s.post_id post_id)) w.snapshots;
        },
      )
      else (err (plain (named "post " post_id " not found")), w)

  unfoldable pub set_status : (post_id status : String) → S (Result Error (Unit {0}))
  set_status post_id status = query env (named "set post " post_id " status") λ n w. (
    ok tt,
    record w {
      posts =
          update_where (post_is post_id) (λ p. record p { status = status; updated_at = env.now n })
            w.posts;
    },
  )

  unfoldable pub list_targets : String → S (Result Error (List PostTarget))
  unfolding scan_targets scan_target
  list_targets post_id = query env (named "list targets for post " post_id "") λ n w. (
    elim (collect_rows env n (select (λ (t : TargetRow). str_eq t.post_id post_id) w.targets)) [
      | err e ↦ err e
      | ok rows ↦ scan_targets rows
    ],
    w,
  )

  -- INSERT INTO post_targets: the post and the account must exist. The columns that the statement
  -- does not name take their defaults.
  unfoldable pub new_target : (id post_id account_id platform format : String) → Json → TargetRow
  new_target id post_id account_id platform format config = record {
    id = id;
    post_id = post_id;
    account_id = account_id;
    platform = platform;
    format = format;
    config = config;
    status = "pending";
    platform_post_id = none;
    permalink = none;
    failure_reason = none;
    attempt_count = 0;
    last_attempted_at = none;
    published_at = none;
  }

  unfoldable pub create_target :
      (post_id account_id platform format : String) → Json → S (Result Error String)
  unfolding new_target
  create_target post_id account_id platform format config = call env λ n w.
      if exists_row (post_is post_id) w.posts
        && exists_row (λ (a : Account). str_eq a.id account_id) w.accounts
      then (
        ok (env.fresh n),
        record w {
          targets =
              w.targets ++ new_target (env.fresh n) post_id account_id platform format config ∷ [];
        },
      )
      else (err failure, w)

  unfoldable pub list_scheduled :
      (workspace_id : String) (from to : Time) → S (Result Error (List Post))
  unfolding scan_posts scan_post
  list_scheduled workspace_id from to = query env "list scheduled" λ n w.
      let rows =
        order_asc (λ p. p.scheduled_at)
          (select
            (λ p.
              str_eq p.workspace_id workspace_id
              && str_eq p.status "scheduled"
              && is_between from to p.scheduled_at)
            w.posts) in
      (wrapped "scan scheduled post" (scan_posts (next_rows env n rows)), w)
