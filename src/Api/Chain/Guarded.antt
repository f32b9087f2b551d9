-- ===== src/Api/Chain/Guarded.antt =====
-- internal/api/server.go: what stands between a request and a handler under /v1.
use socialpublish.Prelude.{
  suc, String, false, Bytes, codes, is_empty, str_eq, ok, err, Result, Result-cases, Bool-cases,
  inl, inr, ◌≡◌, ◌⊎◌, ◌∙◌, ap, refl, none, some, ℕ, map, str_eq_iff,
}
use socialpublish.Store.Types.{ApiKey}
use socialpublish.Store.Database.{World, Env, S, Error, ◌>>=◌, pure, query, one_row, outside}
use socialpublish.Store.Accounts.{find_by_hash, touch_last_used, get_workspace}
use socialpublish.Api.Http.{Response, empty}
use socialpublish.Api.Middleware.{
  Workspace, trim_prefix, is_expired, authenticate, inject_tenant, with_plan, rate_limit,
}
use socialpublish.Store.Database.Rows.{map-update_where}
use socialpublish.Api.Middleware.Auth.{find_by_hash-ok, find_by_hash-world}
use socialpublish.Api.Chain.{RateLimiter, limited, with_key, v1}

-- A key without the time of its last use.
abbrev pub unused : ApiKey → ApiKey
unused k = record k { last_used_at = none }

-- The tables are those of another state, but for the times of the last use of the keys.
abbrev pub IsTouched : World → World → Type 0
IsTouched w v =
    (v ≡ record w { api_keys = v.api_keys; calls = v.calls })
    × (map unused v.api_keys ≡ map unused w.api_keys)

-- The key that a request presents is in the table and has not expired.
abbrev pub IsPresented : Env → (Bytes → String) → Bytes → World → ApiKey → Type 0
IsPresented env sha256_hex authorization w key =
    (one_row
        (λ (k : ApiKey).
          str_eq k.key_hash (sha256_hex (trim_prefix authorization (codes "Bearer "))))
        w.api_keys
      ≡ ok key)
    × (is_expired (env.now (suc w.calls)) key ≡ false)

-- The request is refused.
abbrev pub IsRefused : World → Response × World → Type 0
IsRefused w outcome = ((outcome.0.status ≡ 401) ⊎ (outcome.0.status ≡ 429)) × IsTouched w outcome.1

touch_last_used-world :
    (env : Env) (id : String) (w : World) → IsTouched w (touch_last_used env id w).1
unfolding touch_last_used query
touch_last_used-world env id w = elim (Bool-cases (env.fails w.calls)) [
  | inl e ↦ rw e (refl, refl)
  | inr e ↦ rw e (refl, map-update_where unused _ _ w.api_keys λ k. refl)
]

get_workspace-world :
    (env : Env) (id : String) (w : World)
    → (get_workspace env id w).1 ≡ record w { calls = suc w.calls }
unfolding get_workspace query
get_workspace-world env id w = elim (Bool-cases (env.fails w.calls)) [
  | inl e ↦ rw e refl
  | inr e ↦ rw e refl
]

IsTouched-calls : (w v : World) (n : ℕ) → IsTouched w v → IsTouched w (record v { calls = n })
IsTouched-calls w v n (h, k) = (ap (λ (x : World). record x { calls = n }) h, k)

module _ (env : Env) where
  limited-cases :
      (limiter : RateLimiter) (ws : Workspace) (next : Workspace → S Response) (w : World)
      → let outcome = limited env limiter ws next w in
        ((outcome.0.status ≡ 429) × (outcome.1 ≡ record w { calls = suc w.calls }))
        ⊎ (outcome ≡ next ws (record w { calls = suc w.calls }))
  unfolding limited outside ◌>>=◌
  limited-cases limiter ws next w =
      elim (Bool-cases (rate_limit (env.now w.calls) ws (limiter w.calls ws.id)).1) [
        | inl e ↦ inr (rw e refl)
        | inr e ↦ inl (rw e (refl, refl))
      ]

  pub with_plan-id : (ws : Workspace) (r : Result Error _) → (with_plan ws r).id ≡ ws.id
  unfolding with_plan
  with_plan-id ws (ok found) = refl
  with_plan-id ws (err e) = refl

  pub inject_tenant-some :
      (ws : Workspace) (next : Workspace → S Response) (w : World)
      → inject_tenant env (some ws) next w
        ≡ next (with_plan ws (get_workspace env ws.id w).0) (record w { calls = suc w.calls })
  unfolding inject_tenant ◌>>=◌
  inject_tenant-some ws next w = rw (get_workspace-world env ws.id w) refl

  module _ (sha256_hex : Bytes → String) (authorization : Bytes) (w : World) where
    -- The state behind the note of the use of the key.
    abbrev noted : ApiKey → World
    noted key = (touch_last_used env key.id (record w { calls = suc w.calls })).1

    authenticate-cases :
        (next : Workspace → S Response)
        → let outcome = authenticate env sha256_hex authorization next w in
          ((outcome.0.status ≡ 401) × IsTouched w outcome.1)
          ⊎ ((key : ApiKey) × IsPresented env sha256_hex authorization w key
              × (outcome ≡ next (record { id = key.workspace_id; plan = "free" }) (noted key)))
    unfolding authenticate ◌>>=◌
    authenticate-cases next =
        let found = find_by_hash env (sha256_hex (trim_prefix authorization (codes "Bearer "))) w in
        elim (Bool-cases (is_empty (trim_prefix authorization (codes "Bearer ")))) [
          | inl e ↦ inl (rw e (refl, (refl, refl)))
          | inr e ↦ elim (Result-cases found.0) [
            | inr (x, f) ↦
                inl (
                  rw (e, f, find_by_hash-world env sha256_hex authorization w) (refl, (refl, refl)))
            | inl (key, f) ↦ elim (Bool-cases (is_expired (env.now (suc w.calls)) key)) [
              | inl t ↦ inl (
                  rw (e, f, find_by_hash-world env sha256_hex authorization w, t)
                    (refl, (refl, refl)))
              | inr t ↦ inr (
                key,
                (find_by_hash-ok env sha256_hex authorization w key f, t),
                rw (e, f, find_by_hash-world env sha256_hex authorization w, t) refl,
              )
            ]
          ]
        ]

    noted-IsTouched : (key : ApiKey) → IsTouched w (noted key)
    noted-IsTouched key = touch_last_used-world env key.id (record w { calls = suc w.calls })

    with_key-guarded :
        (limiter : RateLimiter) (handler : (workspace_id : String) → S Response)
        → let outcome = with_key env sha256_hex limiter authorization handler w in
          IsRefused w outcome
          ⊎ ((key : ApiKey) × (v : World) × IsPresented env sha256_hex authorization w key
              × IsTouched w v
              × (outcome ≡ handler key.workspace_id v))
    unfolding with_key
    with_key-guarded limiter handler =
        let behind = λ (ws : Workspace).
          inject_tenant env (some ws) λ ws. limited env limiter ws λ ws. handler ws.id in
        elim (authenticate-cases behind) [
          | inl (s, t) ↦ inl (inl s, t)
          | inr (key, presented, e) ↦
              let ws : Workspace = record { id = key.workspace_id; plan = "free" } in
              let found = (get_workspace env ws.id (noted key)).0 in
              let v = record (noted key) { calls = suc (noted key).calls } in
              let passed =
                e
                ∙ inject_tenant-some ws (λ ws. limited env limiter ws λ ws. handler ws.id)
                    (noted key) in
              let touched = IsTouched-calls w (noted key) (suc v.calls) (noted-IsTouched key) in
              elim (limited-cases limiter (with_plan ws found) (λ ws. handler ws.id) v) [
                | inl (s, t) ↦ inl (rw passed (inr s), rw (passed, t) touched)
                | inr f ↦ inr (
                  key,
                  record v { calls = suc v.calls },
                  presented,
                  touched,
                  passed
                      ∙ f
                      ∙ ap (λ id. handler id (record v { calls = suc v.calls }))
                          (with_plan-id ws found),
                )
              ]
        ]

    -- Whatever fails, whatever the limiter says and whatever the handler does: a request under /v1 is
    -- an OPTIONS request, answered by 200 without a body, with nothing done; or it is answered by 401
    -- or 429, with the tables as they were but for the last use of keys; or the key that it presents
    -- is in the table, was not expired when it was looked at, and the outcome is that of the handler
    -- for the workspace of that key, on tables as they were but for the last use of keys.
    pub v1-guarded :
        (method : String) (limiter : RateLimiter) (handler : (workspace_id : String) → S Response)
        → let outcome = v1 env method sha256_hex limiter authorization handler w in
          ((method ≡ "OPTIONS") × (outcome ≡ (record { status = 200; body = empty }, w)))
          ⊎ (IsRefused w outcome
              ⊎ ((key : ApiKey) × (v : World) × IsPresented env sha256_hex authorization w key
                  × IsTouched w v
                  × (outcome ≡ handler key.workspace_id v)))
    unfolding v1 pure
    v1-guarded method limiter handler = elim (Bool-cases (str_eq method "OPTIONS")) [
      | inl e ↦ inl ((str_eq_iff method "OPTIONS").0 e, rw e refl)
      | inr e ↦ inr (rw e (with_key-guarded limiter handler))
    ]
