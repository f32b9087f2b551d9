-- ===== src/Server/Worker.antt =====
-- cmd/worker/main.go: the pool that run builds, with the handlers that New of internal/worker/pool.go
-- registers. The payloads' JSON, the FFmpeg process and http.Client are parameters.
pub mod Idle
pub mod Handlers
pub mod Refused
use socialpublish.Prelude.{ℕ, String, Bytes, Option, List, [], ◌∷◌, Result, ok, ◌>>=◌}
use socialpublish.Store.Database.{Env, Error, S}
use socialpublish.Store.Interfaces.{Stores}
use socialpublish.Store.Tokens.{Crypto}
use socialpublish.Platform.Registry.{Registry, new_registry}
use socialpublish.Platform.Instagram
use socialpublish.Platform.Youtube
use socialpublish.Ffmpeg.{Runner, new_runner, with_binary}
use socialpublish.Worker.Publish.{PublishPayload, process_publish}
use socialpublish.Worker.Refresh.{TokenRefreshPayload, process_refresh}
use socialpublish.Worker.Transcode.{TranscodePayload, process_transcode}
use socialpublish.Worker.Analytics.{AnalyticsPayload, process_analytics}
use socialpublish.Worker.Deliver.{Client, process_deliver}
use socialpublish.Server.Pool.{
  TaskHandler, transcode, publish, token_refresh, analytics, webhook_deliver,
}
use socialpublish.Server.Storage.{Aws}
use socialpublish.Server.Start.{Pgx, start}

-- json.Unmarshal for each payload; `execute` runs a program at the n-th call.
pub record Outside : Type 0 where
  pub publish_payload : Bytes → Option PublishPayload
  pub refresh_payload : Bytes → Option TokenRefreshPayload
  pub transcode_payload : Bytes → Option TranscodePayload
  pub analytics_payload : Bytes → Option AnalyticsPayload
  -- The workspace of a task for webhooks.
  pub webhook_payload : Bytes → Option String
  pub execute : ℕ → String → ℕ → List String → Result Error (Unit {0})
  pub client : Client
  -- The text of the bytes of a variable of the environment.
  pub text_of : Bytes → String

abbrev pub worker_adapters : Registry
worker_adapters = new_registry (Instagram.adapter ∷ Youtube.adapter ∷ [])

module _ (env : Env) (crypto : Crypto) (other : Outside) where
  -- ProcessTask of the handler of a task type.
  unfoldable pub process_task :
      (token_key : Bytes) → Registry → Runner → TaskHandler → Bytes → S (Result Error (Unit {0}))
  process_task token_key adapters ff transcode payload =
      process_transcode env other.execute ff (other.transcode_payload payload)
  process_task token_key adapters ff publish payload =
      process_publish env crypto token_key adapters (other.publish_payload payload)
  process_task token_key adapters ff token_refresh payload =
      process_refresh env crypto token_key adapters (other.refresh_payload payload)
  process_task token_key adapters ff analytics payload =
      process_analytics env crypto token_key adapters (other.analytics_payload payload)
  process_task token_key adapters ff webhook_deliver payload =
      process_deliver env other.client crypto token_key (other.webhook_payload payload)

  -- What the pool does with a task, up to Pool.Run.
  unfoldable pub run_worker :
      {Cfg Db : Type 0}
      → (stores_of : (token_key : Bytes) → Stores) → (getenv : String → Bytes) → Pgx Cfg Db
      → Aws
      → Result Error (TaskHandler → Bytes → S (Result Error (Unit {0})))
  unfolding process_task
  run_worker stores_of getenv pgx aws = start stores_of getenv pgx aws >>= λ s.
      let ff = new_runner (with_binary (other.text_of s.cfg.ffmpeg_bin) ∷ []) in
      ok (process_task s.cfg.token_encryption_key worker_adapters ff)
