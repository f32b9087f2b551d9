-- ===== src/Api/Chain/Passed.antt =====
-- internal/api/server.go: a request under /v1 that is let through.
use socialpublish.Prelude.{
  ℕ, suc, String, true, false, Bytes, codes, is_empty, str_eq, some, ◌≡◌, ◌∙◌, ap, refl,
}
use socialpublish.Store.Types.{ApiKey}
use socialpublish.Store.Database.{World, Env, IsUp, S, ◌>>=◌, query, update_where, outside}
use socialpublish.Store.Accounts.{find_by_hash, touch_last_used, get_workspace}
use socialpublish.Api.Http.{Response}
use socialpublish.Api.Middleware.{
  Workspace, trim_prefix, authenticate, with_plan, rate_limit, inject_tenant,
}
use socialpublish.Api.Chain.{RateLimiter, limited, with_key, v1}
use socialpublish.Api.Chain.Guarded.{IsPresented, with_plan-id, inject_tenant-some}

-- The state when the handler runs: the time of the last use of the key is stored.
abbrev pub let_in : Env → ApiKey → World → World
let_in env key w = record w {
  api_keys =
      update_where (λ (k : ApiKey). str_eq k.id key.id)
        (λ k. record k { last_used_at = some (env.now (suc w.calls)) }) w.api_keys;
  calls = suc (suc (suc (suc w.calls)));
}

-- The limiter lets the workspace pass.
abbrev pub Allows : RateLimiter → (workspace_id : String) → Type 0
Allows limiter workspace_id = (n limit : ℕ) → (limiter n workspace_id limit).allowed ≡ true

limited-allowed :
    (env : Env) (limiter : RateLimiter) (ws : Workspace) (next : Workspace → S Response) (w : World)
    → Allows limiter ws.id
    → limited env limiter ws next w ≡ next ws (record w { calls = suc w.calls })
unfolding limited outside rate_limit ◌>>=◌
limited-allowed env limiter ws next w allows = rw (allows w.calls _) refl

module _ (env : Env) (sha256_hex : Bytes → String) (authorization : Bytes) (key : ApiKey)
    (w : World) (up : IsUp env)
    (nonempty : is_empty (trim_prefix authorization (codes "Bearer ")) ≡ false)
    (presented : IsPresented env sha256_hex authorization w key) where
  authenticate-presented :
      (next : Workspace → S Response)
      → authenticate env sha256_hex authorization next w
        ≡ next
            (record { id = key.workspace_id; plan = "free" })
            (record (let_in env key w) { calls = suc (suc w.calls) })
  unfolding authenticate find_by_hash touch_last_used ◌>>=◌ query
  authenticate-presented next =
      rw (nonempty, up.answers w.calls, presented.0, presented.1, up.answers (suc w.calls)) refl

  with_key-passed :
      (limiter : RateLimiter) (handler : (workspace_id : String) → S Response)
      → Allows limiter key.workspace_id
      → with_key env sha256_hex limiter authorization handler w
        ≡ handler key.workspace_id (let_in env key w)
  unfolding with_key
  with_key-passed limiter handler allows =
      let ws : Workspace = record { id = key.workspace_id; plan = "free" } in
      let v = record (let_in env key w) { calls = suc (suc w.calls) } in
      let planned = with_plan ws (get_workspace env ws.id v).0 in
      let same : planned.id ≡ key.workspace_id =
        with_plan-id env ws (get_workspace env ws.id v).0 in
      let next = λ (ws : Workspace). limited env limiter ws λ ws. handler ws.id in
      authenticate-presented (λ ws. inject_tenant env (some ws) next)
      ∙ inject_tenant-some env ws next v
      ∙ limited-allowed env limiter planned (λ ws. handler ws.id) (record v { calls = suc v.calls })
          (λ n limit. rw same (allows n limit))
      ∙ ap (λ id. handler id (let_in env key w)) same

  -- The handler runs for the workspace of the key.
  pub v1-passed :
      (method : String) (limiter : RateLimiter) (handler : (workspace_id : String) → S Response)
      → str_eq method "OPTIONS" ≡ false
      → Allows limiter key.workspace_id
      → v1 env method sha256_hex limiter authorization handler w
        ≡ handler key.workspace_id (let_in env key w)
  unfolding v1
  v1-passed method limiter handler other allows = rw other (with_key-passed limiter handler allows)
