-- ===== src/Api/Chain.antt =====
-- internal/api/server.go with internal/api/middleware: the routes under /v1 behind CORS, Authenticate,
-- InjectTenant and RateLimit. The other middlewares answer nothing themselves.
pub mod Guarded
pub mod Passed
pub mod Tenants
use socialpublish.Prelude.{ℕ, String, Bytes, some, if◌then◌else◌}
use socialpublish.Store.Database.{Env, S, outside, ◌>>=◌}
use socialpublish.Api.Http.{Response, write_error}
use socialpublish.Api.Middleware.{Workspace, Verdict, authenticate, inject_tenant, rate_limit, cors}

-- RateLimiter.Allow at the n-th call: the workspace and the limit.
abbrev pub RateLimiter : Type 0
RateLimiter = ℕ → (workspace_id : String) → (limit : ℕ) → Verdict

module _ (env : Env) where
  -- RateLimit, but for its headers.
  unfoldable pub limited : RateLimiter → Workspace → (Workspace → S Response) → S Response
  limited limiter ws next = do
    (headers, goes_on) ← outside λ n. rate_limit (env.now n) ws (limiter n ws.id)
    if goes_on then next ws else write_error 429 "rate_limit" "rate limit exceeded"

  -- What the router of /v1 puts before a handler.
  unfoldable pub with_key :
      (sha256_hex : Bytes → String)
      → RateLimiter
      → (authorization : Bytes) → (handler : (workspace_id : String) → S Response) → S Response
  unfolding limited
  with_key sha256_hex limiter authorization handler =
      authenticate env sha256_hex authorization
        λ ws. inject_tenant env (some ws) λ ws. limited limiter ws λ ws. handler ws.id

  -- A request under /v1 of a method; the handler is given the workspace of the request's context.
  unfoldable pub v1 :
      (method : String)
      → (sha256_hex : Bytes → String) → RateLimiter
      → (authorization : Bytes) → (handler : (workspace_id : String) → S Response) → S Response
  unfolding with_key cors
  v1 method sha256_hex limiter authorization handler =
      cors method (with_key sha256_hex limiter authorization handler)
