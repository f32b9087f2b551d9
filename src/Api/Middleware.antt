-- ===== src/Api/Middleware.antt =====
-- internal/api/middleware: Authenticate, InjectTenant, RateLimit and CORS, and RedisRateLimiter.
-- Redis is a counter for each key; the header texts are byte strings.
pub mod Limits
pub mod Auth
use Prim.Native.String
use socialpublish.Prelude.{
  ℕ, zero, suc, ℤ, pos, negsuc, ◌+◌, ◌-◌, ◌*◌, ◌/◌, ◌%◌, String, Bool, true, false, not, Option,
  none, some, List, [], ◌∷◌, Bytes, codes, is_empty, str_eq, if◌then◌else◌, ltb, leb, ◌==◌, Result,
  ok, err,
}
use socialpublish.Webhook.Signature.{second}
use socialpublish.Store.Types.{Time, ApiKey}
use socialpublish.Store.Types
use socialpublish.Store.Database.{World, Env, Error, S, ◌>>=◌, ◌>>◌, pure, on_result}
use socialpublish.Store.Accounts.{find_by_hash, touch_last_used, get_workspace}
use socialpublish.Api.Http.{Response, write_error, write_json, empty}

-- internal/tenant/context.go: the workspace in the context of a request.
pub record Workspace : Type 0 where
  pub id : String
  pub plan : String

-- What is left of a text behind a prefix.
strip : (prefix text : Bytes) → Option Bytes
strip [] text = some text
strip (c ∷ p) [] = none
strip (c ∷ p) (d ∷ s) = let rest = strip p s in if c == d then rest else none

abbrev or_whole : Option Bytes → Bytes → Bytes
or_whole none text = text
or_whole (some rest) text = rest

-- strings.TrimPrefix
unfoldable pub trim_prefix : (text prefix : Bytes) → Bytes
unfolding strip
trim_prefix text prefix = or_whole (strip prefix text) text

-- key.ExpiresAt != nil && key.ExpiresAt.Before(time.Now())
unfoldable pub is_expired : Time → ApiKey → Bool
is_expired now key = elim key.expires_at [ none ↦ false | some t ↦ ltb t now ]

module _ (env : Env) (sha256_hex : Bytes → String) where
  unfoldable pub authenticate : (authorization : Bytes) → (Workspace → S Response) → S Response
  authenticate authorization next =
      let raw = trim_prefix authorization (codes "Bearer ") in
      if is_empty raw then write_error 401 "unauthorized" "API key required" else do
        found ← find_by_hash env (sha256_hex raw)
        on_result found (λ e. write_error 401 "unauthorized" "invalid API key")
            λ key. λ w.
              if is_expired (env.now w.calls) key
              then write_error 401 "unauthorized" "API key expired" w
              else (do
                touch_last_used env key.id
                next (record { id = key.workspace_id; plan = "free" }))
                  w

-- Without a workspace record the plan stays as it is.
unfoldable pub with_plan : Workspace → Result Error Types.Workspace → Workspace
with_plan ws (ok found) = record ws { plan = found.plan }
with_plan ws (err e) = ws

module _ (env : Env) where
  unfoldable pub inject_tenant : Option Workspace → (Workspace → S Response) → S Response
  unfolding with_plan
  inject_tenant none next = write_error 401 "unauthorized" "workspace missing"
  inject_tenant (some ws) next = do found ← get_workspace env ws.id; next (with_plan ws found)

-- PlanLimits; a plan that is not in the map has the zero value.
unfoldable pub plan_limits : String → ℕ
plan_limits plan =
    if str_eq plan "free"
    then 60
    else if str_eq plan "starter"
    then 300
    else if str_eq plan "pro"
    then 1000
    else if str_eq plan "enterprise"
    then 5000
    else 0

unfoldable pub limit_for : String → ℕ
unfolding plan_limits
limit_for plan = if plan_limits plan == 0 then plan_limits "free" else plan_limits plan

abbrev pub minute : ℕ
minute = 60 * second

-- A counter of Redis and the time at which it expires, if one is set.
pub record Counter : Type 0 where
  pub count : ℕ
  pub expires : Option Time

-- The answer of Allow.
pub record Verdict : Type 0 where
  pub remaining : ℕ
  pub reset : Time
  pub allowed : Bool

abbrev is_live : Time → Counter → Bool
is_live now c = elim c.expires [ none ↦ true | some t ↦ ltb now t ]

-- INCR: an expired or missing counter starts at 0.
unfoldable pub incr : Time → Option Counter → Counter
incr now none = record { count = 1; expires = none }
incr now (some c) =
    if is_live now c then record c { count = c.count + 1 } else record { count = 1; expires = none }

-- time.Now().Add(time.Minute).Truncate(time.Minute)
abbrev pub reset_time : Time → Time
reset_time now = now + minute - (now + minute) % minute

-- EXPIRE after the first request of a window; `expire_ok` says whether it gets through.
unfoldable pub set_expiry : (expire_ok : Bool) → Time → Counter → Counter
set_expiry expire_ok now c =
    if c.count == 1
    then (if expire_ok then record c { expires = some (now + minute) } else c)
    else c

-- RedisRateLimiter.Allow on the counter of the workspace; `incr_ok` says whether Redis answers.
unfoldable pub allow :
    (incr_ok expire_ok : Bool) → Time → (limit : ℕ) → Option Counter → Verdict × Option Counter
unfolding incr set_expiry
allow incr_ok expire_ok now limit c =
    if incr_ok
    then (let counted = set_expiry expire_ok now (incr now c) in
        (
          record {
            remaining = limit - counted.count;
            reset = reset_time now;
            allowed = leb counted.count limit;
          },
          some counted,
        ))
    else (record { remaining = limit; reset = reset_time now; allowed = true }, c)

-- InMemoryRateLimiter.Allow
unfoldable pub allow_in_memory : Time → (limit : ℕ) → Verdict
allow_in_memory now limit = record { remaining = limit; reset = reset_time now; allowed = true }

one_less : ℕ → ℤ
one_less zero = pos 1
one_less (suc zero) = pos 0
one_less (suc (suc n)) = negsuc n

-- time.Until(reset).Milliseconds()/1000 + 1: the divisions round towards zero, also where the window
-- has ended.
unfoldable pub retry_seconds : (reset now : Time) → ℤ
unfolding one_less
retry_seconds reset now =
    if leb now reset then pos ((reset - now) / second + 1) else one_less ((now - reset) / second)

-- The headers that RateLimit sets.
pub record LimitHeaders : Type 0 where
  pub limit : ℕ
  pub remaining : ℕ
  pub reset : ℕ
  pub retry_after : Option ℤ

-- The headers, `now` being the time at which they are set, and whether the request goes on to the next handler; else it is answered by 429.
unfoldable pub rate_limit : Time → Workspace → (ℕ → Verdict) → LimitHeaders × Bool
rate_limit now ws limiter =
    let limit = limit_for ws.plan in
    let v = limiter limit in
    (
      record {
        limit = limit;
        remaining = v.remaining;
        reset = v.reset / second;
        retry_after = if v.allowed then none else some (retry_seconds v.reset now);
      },
      v.allowed,
    )

-- CORS answers OPTIONS itself.
unfoldable pub cors : (method : String) → S Response → S Response
cors method next = if str_eq method "OPTIONS" then write_json 200 empty else next
