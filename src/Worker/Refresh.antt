-- ===== src/Worker/Refresh.antt =====
-- internal/worker/refresh.go: tokenRefreshHandler.ProcessTask.
use socialpublish.Prelude.{String, Bytes, Option, none, some, Result, ok, err}
use socialpublish.Store.Database.{Env, Error, wrap, skip, S, ◌>>=◌, pure, or_return, outside, named}
use socialpublish.Store.Accounts.{update_token}
use socialpublish.Store.Tokens.{Crypto, save}
use socialpublish.Platform.Adapter.{PlatformAdapter}
use socialpublish.Platform.Registry.{Registry}
use socialpublish.Platform.Registry

pub record TokenRefreshPayload : Type 0 where
  pub account_id : String
  pub platform : String
  pub refresh_token : Bytes

module _ (env : Env) (crypto : Crypto) (key : Bytes) (adapters : Registry) where
  unfoldable pub refresh_with :
      TokenRefreshPayload → Option PlatformAdapter → S (Result Error (Unit {0}))
  refresh_with payload none =
      pure (err (skip (named "no adapter for platform " payload.platform "")))
  refresh_with payload (some adapter) = do
    refreshed ← outside λ n. adapter.refresh_token n payload.refresh_token
    or_return refreshed (wrap (named "refresh token for account " payload.account_id "")) λ token.
        do
          saved ← save env crypto key token.access_token
          or_return saved (wrap (named "save refreshed token for account " payload.account_id ""))
              λ token_id. do
                updated ← update_token env payload.account_id token_id (some token.expires_at)
                or_return updated (wrap (named "update account token " payload.account_id ""))
                    λ _. pure (ok tt)

  unfoldable pub process_refresh : Option TokenRefreshPayload → S (Result Error (Unit {0}))
  unfolding refresh_with
  process_refresh none = pure (err (skip "unmarshal token refresh payload"))
  process_refresh (some payload) = refresh_with payload (Registry.get adapters payload.platform)
