-- ===== src/Store/Analytics.antt =====
-- internal/store/postgres.go: analyticsStore. The table has the constraints of migration 000010.
pub mod Latest
use socialpublish.Prelude.{
  String, Bool, not, ◌&&◌, Option, none, some, List, [], ◌∷◌, ◌++◌, if◌then◌else◌, str_eq, Result,
  ok, err, select,
}
use socialpublish.Store.Json.{Json, scan_map}
use socialpublish.Store.Types.{Time, Workspace, Account, Post, AnalyticsSnapshot}
use socialpublish.Store.Database.{
  World, Env, Error, failure, no_rows, bad_column, wrap, S, query, wrapped, exists_row, order_desc,
}

-- pgx.CollectExactlyOneRow of rows with LIMIT 1 behind them.
unfoldable pub first_row : {A : Type 0} → List A → Result Error A
first_row [] = err no_rows
first_row (x ∷ xs) = ok x

-- pgx.RowToStructByName[AnalyticsSnapshot]: the metrics are read into a map.
unfoldable pub scan_snapshot : Env → Result Error AnalyticsSnapshot → Result Error AnalyticsSnapshot
unfolding scan_map
scan_snapshot env (err e) = err e
scan_snapshot env (ok s) = elim (scan_map env.read_number s.metrics) [
  | none ↦ err bad_column
  | some metrics ↦ ok (record s { metrics = metrics })
]

-- WHERE p ORDER BY collected_at DESC LIMIT 1
unfoldable pub latest :
    (AnalyticsSnapshot → Bool) → List AnalyticsSnapshot → Result Error AnalyticsSnapshot
unfolding first_row
latest p snapshots =
    first_row (order_desc (λ (s : AnalyticsSnapshot). s.collected_at) (select p snapshots))

-- The rows that the foreign keys of a snapshot name are there.
unfoldable pub has_parents : AnalyticsSnapshot → World → Bool
has_parents s w =
    exists_row (λ (x : Workspace). str_eq x.id s.workspace_id) w.workspaces
    && (exists_row (λ (x : Account). str_eq x.id s.account_id) w.accounts
        && exists_row (λ (x : Post). str_eq x.id s.post_id) w.posts)

module _ (env : Env) where
  -- INSERT INTO analytics_snapshots; the database generates the identifier.
  unfoldable pub record_snapshot : AnalyticsSnapshot → S (Result Error (Unit {0}))
  unfolding has_parents
  record_snapshot s = query env "record analytics snapshot" λ n w.
      if has_parents s w
      then (ok tt, record w { snapshots = w.snapshots ++ record s { id = env.fresh n } ∷ [] })
      else (err (wrap "record analytics snapshot" failure), w)

  unfoldable pub get_post_metrics : (post_id : String) → S (Result Error AnalyticsSnapshot)
  unfolding latest scan_snapshot
  get_post_metrics post_id = query env "get post metrics" λ n w. (
    wrapped "scan post metrics" (
        scan_snapshot env
          (latest (λ (s : AnalyticsSnapshot). str_eq s.post_id post_id) w.snapshots)),
    w,
  )

  unfoldable pub get_account_metrics : (account_id : String) → S (Result Error AnalyticsSnapshot)
  unfolding latest scan_snapshot
  get_account_metrics account_id = query env "get account metrics" λ n w. (
    wrapped "scan account metrics" (
        scan_snapshot env
          (latest (λ (s : AnalyticsSnapshot). str_eq s.account_id account_id) w.snapshots)),
    w,
  )

  -- COALESCE(id, '') on a column of type UUID reads the empty text as a UUID, which fails unless
  -- `is_uuid` takes it. The two times are not used; the columns are as COALESCE leaves them.
  unfoldable pub get_summary :
      (is_uuid : String → Bool) (workspace_id : String) (from to : Option Time)
      → S (Result Error AnalyticsSnapshot)
  unfolding latest scan_snapshot
  get_summary is_uuid workspace_id from to = query env "get summary" λ n w.
      if not (is_uuid "") then (err (wrap "get summary" failure), w) else (
        wrapped "scan summary" (
            scan_snapshot env
              (elim (latest (λ (s : AnalyticsSnapshot). str_eq s.workspace_id workspace_id)
                w.snapshots) [ err e ↦ err e | ok s ↦ ok (record s { platform_post_id = "" }) ])),
        w,
      )
