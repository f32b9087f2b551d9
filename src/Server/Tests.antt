-- ===== src/Server/Tests.antt =====
-- Examples for the start and the end of the processes.
mod Worker
use socialpublish.Prelude.{
  ℕ, String, Result, Bool, none, true, false, err, some, [], ◌∷◌, Bytes, codes, ok, ◌⊎◌, str_eq,
  if◌then◌else◌, ◌≡◌, refl, subst,
}
use socialpublish.Samples.{
  sample_env, sample_env-IsUp, sample_world, sample_aead, sample_crypto, sample_crypto-IsSealing,
  sample_token_key,
}
use socialpublish.Store.Database.{Error, failure, no_rows}
use socialpublish.Store.Tokens.{Aead}
use socialpublish.Store.Interfaces.{Stores, new_stores}
use socialpublish.Server.Config.{load, read_config}
use socialpublish.Server.Storage.{Aws, client_options, new_s3}
use socialpublish.Server.Run.{
  State, initial, Reach, pool, server, server_reports, listener_ends, receive, shutdown_ends,
  shutdown_starts, context_ends, here, next, returned, stopping,
}
use socialpublish.Server.Run.Returned.{Stands, ToldByServer, ToldByPool, Reach-returned}
use socialpublish.Server.Start.{Pgx, open_db, Started, start, IsReady, start-tokens}

abbrev getenv : String → Bytes
getenv name = if str_eq name "TOKEN_ENCRYPTION_KEY" then sample_token_key else codes "x"

abbrev aws : Aws
aws = record {
  connects = λ options. ok tt;
  presign = λ options object. ok object.key;
  delete = λ options bucket key. ok tt;
}

abbrev pgx : Pgx (Unit {0}) (Unit {0})
pgx = record { parse_config = λ url. ok tt; new_with_config = λ cfg. ok tt; ping = λ db. ok tt }

-- No text is a UUID.
abbrev stores_of : Bytes → Stores
stores_of = new_stores sample_env sample_crypto (λ text. false)

abbrev started : Started (Unit {0})
started = record {
  cfg = read_config getenv;
  db = tt;
  storage = record {
    cfg = (read_config getenv).s3;
    client = client_options (read_config getenv).s3;
  };
  stores = stores_of sample_token_key;
}

starts : start stores_of getenv pgx aws ≡ ok started
unfolding start open_db load read_config new_s3
starts = refl

sample_crypto-IsReady : IsReady sample_crypto
sample_crypto-IsReady = record { takes = λ key h. (sample_aead, refl); draws = draws }
  where
    draws :
        (n : ℕ) (key : Bytes) (aead : Aead)
        → sample_crypto.new_gcm key ≡ some aead
        → (nonce : Bytes) × (sample_crypto.random n aead.nonce_size ≡ some nonce)
    draws n key aead e =
        let same : sample_aead ≡ aead = cc in
        subst (λ (a : Aead). (nonce : Bytes) × (sample_crypto.random n a.nonce_size ≡ some nonce))
          same (7 ∷ [], refl)

start-tokens_example :
    ((started.stores.tokens.save (9 ∷ []) sample_world).0 ≡ ok "new")
    × ((started.stores.tokens.decrypt "new" (started.stores.tokens.save (9 ∷ []) sample_world).1).0
        ≡ ok (9 ∷ []))
start-tokens_example =
    start-tokens sample_env sample_crypto (λ text. false) getenv pgx aws started (9 ∷ [])
      sample_world starts sample_env-IsUp sample_crypto-IsSealing sample_crypto-IsReady tt

abbrev clean : Result Error (Unit {0})
clean = ok tt

-- The only error that is http.ErrServerClosed.
unfoldable is_closed : Error → Bool
is_closed no_rows = true
is_closed e = false

abbrev unbound : State
unbound = record initial { listener = some (err failure); err_ch = some failure }

-- The server cannot listen.
unbound-reached :
    Reach
      (server is_closed clean)
      (record unbound { phase = returned (err failure); err_ch = none })
unfolding server_reports is_closed
unbound-reached =
    next (next here (listener_ends initial (err failure) refl)) (receive unbound failure refl refl)

abbrev ended : State
ended = record initial { phase = returned clean; cancelled = true }

-- The context ends, and the pool shuts down.
ended-reached : Reach pool ended
ended-reached =
    next
      (next (next here (context_ends initial))
        (shutdown_starts (record initial { cancelled = true }) refl refl))
      (shutdown_ends (record initial { phase = stopping; cancelled = true }) (ok tt) refl refl)

Reach-returned_example :
    Stands
      (ToldByServer is_closed)
      (λ r. r ≡ clean)
      (record unbound { phase = returned (err failure); err_ch = none })
    × Stands ToldByPool (λ r. r ≡ ok tt) ended
Reach-returned_example = Reach-returned is_closed clean unbound-reached ended-reached
