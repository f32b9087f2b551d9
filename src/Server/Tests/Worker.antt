-- ===== src/Server/Tests/Worker.antt =====
-- Examples for cmd/worker/main.go.
use socialpublish.Prelude.{none, some, List, [], ◌∷◌, Bytes, codes, true, Result, ok, ◌≡◌, refl}
use socialpublish.Samples.{sample_env, sample_crypto, sample_world, sample_token_key, sample_hmac}
use socialpublish.Store.Database.{Error, S}
use socialpublish.Ffmpeg.{new_runner, with_binary}
use socialpublish.Server.Pool.{TaskHandler, publish, token_refresh, webhook_deliver}
use socialpublish.Server.Start.{start, open_db}
use socialpublish.Server.Config.{load, read_config}
use socialpublish.Server.Storage.{new_s3}
use socialpublish.Server.Worker.{Outside, process_task, worker_adapters, run_worker}
use socialpublish.Server.Worker.Idle.{IsIdle}
use socialpublish.Server.Worker.Refused.{work_off, run_worker-IsIdle}
use socialpublish.Server.Tests.{getenv, pgx, aws, stores_of}

-- Payloads that are read as one target, one account and one workspace.
abbrev other : Outside
other = record {
  publish_payload = λ b. some (record { post_id = "p1"; target_id = "t1" });
  refresh_payload =
      λ b. some (record { account_id = "a1"; platform = "youtube"; refresh_token = codes "r" });
  transcode_payload = λ b. none;
  analytics_payload = λ b. none;
  webhook_payload = λ b. some "acme";
  execute = λ n bin timeout args. ok tt;
  client = record {
    marshal = λ event. codes "{}";
    hmac = sample_hmac;
    builds = λ url. true;
    send = λ n req. some 500;
  };
  text_of = λ b. "ffmpeg";
}

abbrev process : TaskHandler → Bytes → S (Result Error (Unit {0}))
process =
    process_task sample_env sample_crypto other sample_token_key worker_adapters
      (new_runner (with_binary "ffmpeg" ∷ []))

runs : run_worker sample_env sample_crypto other stores_of getenv pgx aws ≡ ok process
unfolding run_worker start open_db load read_config new_s3
runs = refl

abbrev tasks : List (TaskHandler × Bytes)
tasks = (publish, codes "{}") ∷ (token_refresh, codes "{}") ∷ (webhook_deliver, codes "{}") ∷ []

run_worker-IsIdle_example : IsIdle sample_world (work_off process tasks sample_world)
run_worker-IsIdle_example =
    run_worker-IsIdle sample_env sample_crypto other stores_of getenv pgx aws process tasks
      sample_world runs
