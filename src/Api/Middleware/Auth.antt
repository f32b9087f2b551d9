-- ===== src/Api/Middleware/Auth.antt =====
-- internal/api/middleware/auth.go: the key that Authenticate looks up.
use socialpublish.Prelude.{
  suc, String, Bytes, codes, str_eq, ok, Bool-cases, inl, inr, ◌≡◌, refl, arith,
}
use socialpublish.Store.Types.{ApiKey}
use socialpublish.Store.Database.{World, Env, query, one_row}
use socialpublish.Store.Accounts.{find_by_hash}
use socialpublish.Api.Middleware.{trim_prefix}

module _ (env : Env) (sha256_hex : Bytes → String) (authorization : Bytes) (w : World) where
  -- The hash of the presented key.
  abbrev hash : String
  hash = sha256_hex (trim_prefix authorization (codes "Bearer "))

  pub find_by_hash-ok :
      (key : ApiKey)
      → (find_by_hash env hash w).0 ≡ ok key
      → one_row (λ (k : ApiKey). str_eq k.key_hash hash) w.api_keys ≡ ok key
  unfolding find_by_hash query
  find_by_hash-ok key h = elim (Bool-cases (env.fails w.calls)) [
    | inl e ↦ absurd (ground arith)
    | inr e ↦ ground arith
  ]

  pub find_by_hash-world : (find_by_hash env hash w).1 ≡ record w { calls = suc w.calls }
  unfolding find_by_hash query
  find_by_hash-world = elim (Bool-cases (env.fails w.calls)) [
    | inl e ↦ rw e refl
    | inr e ↦ rw e refl
  ]
