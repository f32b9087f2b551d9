-- ===== src/Server/Serve.antt =====
-- cmd/server/main.go: the configuration that run gives to New of internal/api/server.go, and the
-- http.Server that New makes of it. Redis, the queue and the error group are libraries.
use socialpublish.Prelude.{ℕ, ◌*◌, Bytes, some, Result, ok, ◌>>=◌, String}
use socialpublish.Webhook.Signature.{second}
use socialpublish.Store.Database.{Error, S}
use socialpublish.Store.Interfaces.{Stores}
use socialpublish.Api.Http.{Response, readyz}
use socialpublish.Server.Storage.{Aws}
use socialpublish.Server.Start.{Pgx, Started, start}

-- api.Config; the readiness check is given by its outcome.
pub record Config : Type 0 where
  pub listen_addr : Bytes
  pub read_timeout : ℕ
  pub write_timeout : ℕ
  pub idle_timeout : ℕ
  pub shutdown_timeout : ℕ
  pub readiness_check : Result Error (Unit {0})

unfoldable pub server_config : {Cfg Db : Type 0} → Pgx Cfg Db → Started Db → Config
server_config pgx s = record {
  listen_addr = s.cfg.listen_addr;
  read_timeout = 5 * second;
  write_timeout = 30 * second;
  idle_timeout = 120 * second;
  shutdown_timeout = 30 * second;
  readiness_check = pgx.ping s.db;
}

-- The fields of http.Server.
pub record HttpServer : Type 0 where
  pub addr : Bytes
  pub read_timeout : ℕ
  pub write_timeout : ℕ
  pub idle_timeout : ℕ

unfoldable pub http_server : Config → HttpServer
http_server cfg = record {
  addr = cfg.listen_addr;
  read_timeout = cfg.read_timeout;
  write_timeout = cfg.write_timeout;
  idle_timeout = cfg.idle_timeout;
}

-- What GET /readyz answers.
unfoldable pub ready : Config → S Response
ready cfg = readyz (some cfg.readiness_check)

-- What run has made before it serves.
unfoldable pub run_server :
    {Cfg Db : Type 0}
    → (stores_of : (token_key : Bytes) → Stores) → (getenv : String → Bytes) → Pgx Cfg Db
    → Aws
    → Result Error (Config × HttpServer)
unfolding server_config http_server
run_server stores_of getenv pgx aws = start stores_of getenv pgx aws >>= λ s.
    let cfg = server_config pgx s in ok (cfg, http_server cfg)
