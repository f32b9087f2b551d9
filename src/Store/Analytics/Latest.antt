-- ===== src/Store/Analytics/Latest.antt =====
-- internal/store/postgres.go: the snapshot that is read back is the one recorded last.
use socialpublish.Prelude.{
  ℕ, suc, ◌<◌, Bool, true, false, List, [], ◌∷◌, ◌++◌, str_eq, str_eq_iff, leb, ok, select, All,
  ◌≡◌, refl, arith, some,
}
use socialpublish.Store.Json.{Json, scan_map}
use socialpublish.Store.Types.{AnalyticsSnapshot}
use socialpublish.Store.Database.{World, Env, IsUp, query, order_desc, insert_desc}
use socialpublish.Store.Analytics.{
  first_row, latest, scan_snapshot, has_parents, record_snapshot, get_post_metrics,
}

module _ {A : Type 0} (key : A → ℕ) (last : A) where
  -- `last` comes first in a descending order.
  first-insert_desc :
      (x : A) (ys : List A)
      → key x < key last
      → first_row ys ≡ ok last
      → first_row (insert_desc key x ys) ≡ ok last
  unfolding first_row insert_desc
  first-insert_desc x [] h e = absurd (cc)
  first-insert_desc x (y ∷ ys) h e =
      let same : y ≡ last = ground arith in
      let later : leb (key y) (key x) ≡ false = rw (same) (ground arith) in rw (later) e

  first-order_desc :
      (xs : List A)
      → All (λ x. key x < key last) xs
      → first_row (order_desc key (xs ++ last ∷ [])) ≡ ok last
  unfolding first_row order_desc insert_desc
  first-order_desc [] h = refl
  first-order_desc (x ∷ xs) (h, hs) = first-insert_desc x _ h (first-order_desc xs hs)

select-append {ℓ} :
    {A : Type ℓ} (p : A → Bool) (xs ys : List A) → select p (xs ++ ys) ≡ select p xs ++ select p ys
unfolding select
select-append p [] ys = refl
select-append p (x ∷ xs) ys = ground (arith, select-append p xs ys)

latest-append :
    (p : AnalyticsSnapshot → Bool) (xs : List AnalyticsSnapshot) (s : AnalyticsSnapshot)
    → p s ≡ true
    → All (λ (x : AnalyticsSnapshot). x.collected_at < s.collected_at) (select p xs)
    → latest p (xs ++ s ∷ []) ≡ ok s
unfolding latest select
latest-append p xs s h older =
    let chosen : select p (s ∷ []) ≡ s ∷ [] = rw (h, select) refl in
    rw (select-append p xs (s ∷ []), chosen)
      (first-order_desc (λ (x : AnalyticsSnapshot). x.collected_at) s (select p xs) older)

-- With everything up and the rows that it refers to there: a snapshot that is newer than those of
-- its post is recorded, and read back as the metrics of the post under the identifier that the
-- database gave it.
pub get_post_metrics-record_snapshot :
    (env : Env) (s : AnalyticsSnapshot) (metrics : Json) (w : World)
    → IsUp env
    → has_parents s w ≡ true
    → scan_map env.read_number s.metrics ≡ some metrics
    → All
        (λ (x : AnalyticsSnapshot). x.collected_at < s.collected_at)
        (select (λ (x : AnalyticsSnapshot). str_eq x.post_id s.post_id) w.snapshots)
    → (get_post_metrics env s.post_id (record_snapshot env s w).1).0
      ≡ ok (record s { id = env.fresh w.calls; metrics = metrics })
unfolding get_post_metrics record_snapshot query scan_snapshot
get_post_metrics-record_snapshot env s metrics w up parents map older =
    let same : str_eq s.post_id s.post_id ≡ true = (str_eq_iff s.post_id s.post_id).1 refl in
    let found =
      latest-append (λ (x : AnalyticsSnapshot). str_eq x.post_id s.post_id) w.snapshots
        (record s { id = env.fresh w.calls }) same older in
    rw (up.answers w.calls, parents, up.answers (suc w.calls), found, scan_snapshot, map) refl
