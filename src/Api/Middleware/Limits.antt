-- ===== src/Api/Middleware/Limits.antt =====
-- internal/api/middleware/redis_ratelimit.go: how many requests of a workspace a window lets
-- through, where Redis answers.
use socialpublish.Prelude.{
  ℕ, ◌+◌, ◌≤◌, ◌<◌, true, false, Option, none, some, List, [], ◌∷◌, All, length, ◌≡◌, ◌↔◌, arith,
  ap,
}
use socialpublish.Store.Types.{Time}
use socialpublish.Api.Middleware.{minute, Counter, incr, set_expiry, allow}

-- The counter after requests at the given times.
pub after : (limit : ℕ) → List Time → Option Counter → Option Counter
after limit [] c = c
after limit (t ∷ ts) c = after limit ts (allow true true t limit c).1

-- The counter of a window that has let `k` requests be counted.
abbrev counted : ℕ → Time → Counter
counted k opened = record { count = k; expires = some (opened + minute) }

abbrev IsWithin : Time → Time → Type 0
IsWithin opened t = t < opened + minute

allow_first : (limit : ℕ) (t : Time) → (allow true true t limit none).1 ≡ some (counted 1 t)
unfolding allow incr set_expiry
allow_first limit t = ground arith

allow_next :
    (limit k : ℕ) (opened t : Time)
    → IsWithin opened t
    → 0 < k
    → (allow true true t limit (some (counted k opened))).1 ≡ some (counted (k + 1) opened)
unfolding allow incr set_expiry
allow_next limit k opened t h p = ground arith

after-counted :
    (limit k : ℕ) (opened : Time) (ts : List Time)
    → All (IsWithin opened) ts
    → 0 < k
    → after limit ts (some (counted k opened)) ≡ some (counted (k + length ts) opened)
unfolding after
after-counted limit k opened [] h p = ap (λ (c : ℕ). some (counted c opened)) (ground arith)
after-counted limit k opened (t ∷ ts) (q, h) p =
    rw (allow_next limit k opened t q p, after-counted limit (k + 1) opened ts h (omega arith))
      (ap (λ (c : ℕ). some (counted c opened)) (omega arith))

allowed_next :
    (limit k : ℕ) (opened t : Time)
    → IsWithin opened t
    → ((allow true true t limit (some (counted k opened))).0.allowed ≡ true) ↔ (k + 1 ≤ limit)
unfolding allow incr set_expiry
allowed_next limit k opened t h = ground arith

-- While Redis answers: behind a first request that opens a window and `length ts` further ones, all
-- within a minute of the first, a request within that minute is allowed exactly when it and those
-- before it do not exceed the limit.
pub allow_window :
    (limit : ℕ) (opened now : Time) (ts : List Time)
    → All (λ t. t < opened + minute) ts
    → now < opened + minute
    → ((allow true true now limit (after limit (opened ∷ ts) none)).0.allowed ≡ true)
      ↔ (length ts + 2 ≤ limit)
unfolding after
allow_window limit opened now ts h q =
    rw (allow_first limit opened, after-counted limit 1 opened ts h (omega arith))
      (let (f, g) = allowed_next limit (1 + length ts) opened now q in
        (λ a. omega (arith, f a), λ a. g (omega (arith, a))))

-- A counter that never expires.
abbrev unexpiring : ℕ → Counter
unexpiring k = record { count = k; expires = none }

unexpiring_first : (limit : ℕ) (t : Time) → (allow true false t limit none).1 ≡ some (unexpiring 1)
unfolding allow incr set_expiry
unexpiring_first limit t = ground arith

unexpiring_next :
    (limit k : ℕ) (t : Time)
    → 0 < k
    → (allow true true t limit (some (unexpiring k))).1 ≡ some (unexpiring (k + 1))
unfolding allow incr set_expiry
unexpiring_next limit k t p = ground arith

after-unexpiring :
    (limit k : ℕ) (ts : List Time)
    → 0 < k
    → after limit ts (some (unexpiring k)) ≡ some (unexpiring (k + length ts))
unfolding after
after-unexpiring limit k [] p = ap (λ (c : ℕ). some (unexpiring c)) (ground arith)
after-unexpiring limit k (t ∷ ts) p =
    rw (unexpiring_next limit k t p, after-unexpiring limit (k + 1) ts (omega arith))
      (ap (λ (c : ℕ). some (unexpiring c)) (omega arith))

unexpiring_allowed :
    (limit k : ℕ) (t : Time)
    → ((allow true true t limit (some (unexpiring k))).0.allowed ≡ true) ↔ (k + 1 ≤ limit)
unfolding allow incr set_expiry
unexpiring_allowed limit k t = ground arith

-- If the EXPIRE of the first request fails, the window never ends: behind that request and
-- `length ts` further ones, at whatever times, a request is allowed exactly when it and those
-- before it do not exceed the limit.
pub allow_unexpiring :
    (limit : ℕ) (opened now : Time) (ts : List Time)
    → ((allow true true now limit (after limit ts (allow true false opened limit none).1)).0.allowed
        ≡ true)
      ↔ (length ts + 2 ≤ limit)
allow_unexpiring limit opened now ts =
    rw (unexpiring_first limit opened, after-unexpiring limit 1 ts (omega arith))
      (let (f, g) = unexpiring_allowed limit (1 + length ts) now in
        (λ a. omega (arith, f a), λ a. g (omega (arith, a))))
