-- ===== src/Server/Worker/Refused.antt =====
-- cmd/worker/main.go: what a worker does with the adapters of internal/platform/instagram and
-- internal/platform/youtube.
use socialpublish.Prelude.{
  String, List, [], ◌∷◌, Bytes, Result, ok, Bool-cases, inl, inr, All, Result-cases, arith, str_eq,
  ◌≡◌, >>=-eq-ok, subst,
}
use socialpublish.Store.Database.{World, Env, Error, S}
use socialpublish.Store.Interfaces.{Stores}
use socialpublish.Store.Tokens.{Crypto}
use socialpublish.Platform.Adapter.{PlatformAdapter}
use socialpublish.Platform.Registry.{Registry}
use socialpublish.Platform.Registry.{find, new_registry}
use socialpublish.Platform.Registry
use socialpublish.Platform.Instagram
use socialpublish.Platform.Youtube
use socialpublish.Ffmpeg.{Runner, new_runner, with_binary}
use socialpublish.Server.Pool.{
  TaskHandler, transcode, publish, token_refresh, analytics, webhook_deliver,
}
use socialpublish.Server.Storage.{Aws}
use socialpublish.Server.Start.{Pgx, start}
use socialpublish.Server.Worker.{Outside, process_task, worker_adapters, run_worker}
use socialpublish.Server.Worker.Idle.{IsIdle, IsIdle-refl, IsIdle-trans, Idles}
use socialpublish.Server.Worker.Handlers.{
  Refuses, RefusesFound, process_publish-Idles, process_refresh-Idles, process_analytics-Idles,
  process_transcode-Idles, process_deliver-Idles,
}

youtube-Refuses : Refuses Youtube.adapter
unfolding Youtube.adapter Youtube.publish Youtube.refresh_token Youtube.fetch_metrics
youtube-Refuses = record {
  publishes = λ n req. elim (Result-cases (Youtube.publish req)) [
    | inr refused ↦ refused
    | inl (r, h) ↦ absurd (ground (arith, h))
  ];
  refreshes = λ n token. elim (Result-cases (Youtube.refresh_token token)) [
    | inr refused ↦ refused
    | inl (r, h) ↦ absurd (ground (arith, h))
  ];
  fetches = λ n token id. elim (Result-cases (Youtube.fetch_metrics token id)) [
    | inr refused ↦ refused
    | inl (r, h) ↦ absurd (ground (arith, h))
  ];
}

instagram-Refuses : Refuses Instagram.adapter
unfolding Instagram.adapter Instagram.publish Instagram.refresh_token Instagram.fetch_metrics
instagram-Refuses = record {
  publishes = λ n req. elim (Result-cases (Instagram.publish req)) [
    | inr refused ↦ refused
    | inl (r, h) ↦ absurd (ground (arith, h))
  ];
  refreshes = λ n token. elim (Result-cases (Instagram.refresh_token token)) [
    | inr refused ↦ refused
    | inl (r, h) ↦ absurd (ground (arith, h))
  ];
  fetches = λ n token id. elim (Result-cases (Instagram.fetch_metrics token id)) [
    | inr refused ↦ refused
    | inl (r, h) ↦ absurd (ground (arith, h))
  ];
}

find-Refuses :
    (platform : String) (m : List (String × PlatformAdapter))
    → All (λ (e : String × PlatformAdapter). Refuses e.1) m
    → RefusesFound (find platform m)
unfolding find RefusesFound
find-Refuses platform [] h = tt
find-Refuses platform ((other, a) ∷ m) (r, h) = elim (Bool-cases (str_eq other platform)) [
  | inl e ↦ rw e r
  | inr e ↦ rw e (find-Refuses platform m h)
]

adapters-Refuses : (platform : String) → RefusesFound (Registry.get worker_adapters platform)
unfolding Registry.get new_registry Instagram.adapter Youtube.adapter
adapters-Refuses platform =
    let all : All (λ (e : String × PlatformAdapter). Refuses e.1) worker_adapters.adapters =
      (instagram-Refuses, (youtube-Refuses, tt)) in
    find-Refuses platform worker_adapters.adapters all

-- The state behind a list of tasks, one after the other.
unfoldable pub work_off :
    (TaskHandler → Bytes → S (Result Error (Unit {0}))) → List (TaskHandler × Bytes) → World → World
work_off process [] w = w
work_off process ((task, payload) ∷ rest) w = work_off process rest (process task payload w).1

module _ (env : Env) (crypto : Crypto) (other : Outside) where
  process_task-Idles :
      (key : Bytes) (ff : Runner) (task : TaskHandler) (payload : Bytes)
      → Idles (process_task env crypto other key worker_adapters ff task payload)
  unfolding process_task
  process_task-Idles key ff transcode payload = process_transcode-Idles env other.execute ff _
  process_task-Idles key ff publish payload =
      process_publish-Idles env crypto key worker_adapters adapters-Refuses _
  process_task-Idles key ff token_refresh payload =
      process_refresh-Idles env crypto key worker_adapters adapters-Refuses _
  process_task-Idles key ff analytics payload =
      process_analytics-Idles env crypto key worker_adapters adapters-Refuses _
  process_task-Idles key ff webhook_deliver payload =
      process_deliver-Idles env other.client crypto key _

  work_off-IsIdle :
      (process : TaskHandler → Bytes → S (Result Error (Unit {0})))
      → ((task : TaskHandler) (payload : Bytes) → Idles (process task payload))
      → (tasks : List (TaskHandler × Bytes)) (w : World) → IsIdle w (work_off process tasks w)
  unfolding work_off
  work_off-IsIdle process h [] w = IsIdle-refl w
  work_off-IsIdle process h ((task, payload) ∷ rest) w =
      let v = (process task payload w).1 in
      IsIdle-trans w v (work_off process rest v) ((h task payload).at w)
        (work_off-IsIdle process h rest v)

  -- A worker that starts publishes nothing: whatever tasks of the five types it is given, in whatever
  -- order and with whatever payloads, and whatever fails, the identifiers of the platform posts of the
  -- targets stay as they were, and so do the posts, the accounts, the tokens and the snapshots.
  pub run_worker-IsIdle :
      {Cfg Db : Type 0} (stores_of : (token_key : Bytes) → Stores) (getenv : String → Bytes)
      (pgx : Pgx Cfg Db) (aws : Aws) (process : TaskHandler → Bytes → S (Result Error (Unit {0})))
      (tasks : List (TaskHandler × Bytes)) (w : World)
      → run_worker env crypto other stores_of getenv pgx aws ≡ ok process
      → IsIdle w (work_off process tasks w)
  unfolding run_worker
  run_worker-IsIdle stores_of getenv pgx aws process tasks w started =
      let (s, _, e) = >>=-eq-ok (start stores_of getenv pgx aws) _ started in
      let key = s.cfg.token_encryption_key in
      let ff = new_runner (with_binary (other.text_of s.cfg.ffmpeg_bin) ∷ []) in
      let same : process_task env crypto other key worker_adapters ff ≡ process = cc in
      subst
        (λ (p : TaskHandler → Bytes → S (Result Error (Unit {0}))). IsIdle w (work_off p tasks w))
        same (work_off-IsIdle _ (process_task-Idles key ff) tasks w)
