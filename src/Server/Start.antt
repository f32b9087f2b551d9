-- ===== src/Server/Start.antt =====
-- cmd/server/main.go and cmd/worker/main.go: what run builds before it serves, with OpenDB of
-- internal/store/store.go. pgx and the AWS SDK are parameters; signals, logging and the closing of
-- what was opened are left out.
use socialpublish.Prelude.{
  ℕ, String, Bool, true, Bool-cases, some, All, Bytes, is_empty, length, ◌==◌, Result, ok, err, inl,
  inr, ◌>>=◌, >>=-eq-ok, ◌≡◌, ◌≢◌, refl, subst, arith,
}
use socialpublish.Store.Types.{TokenRow}
use socialpublish.Store.Database.{World, Env, IsUp, Error, wrapped, call}
use socialpublish.Store.Tokens.{Aead, Crypto, encrypt_token, save}
use socialpublish.Store.Tokens.Laws.{IsSealing, decrypt-save}
use socialpublish.Store.Interfaces.{Stores, new_stores}
use socialpublish.Server.Config.{Config, load, read_config}
use socialpublish.Server.Storage.{Aws, S3Storage, new_s3}

-- pgxpool: ParseConfig, NewWithConfig and Ping.
pub record Pgx (Cfg Db : Type 0) : Type 0 where
  pub parse_config : Bytes → Result Error Cfg
  pub new_with_config : Cfg → Result Error Db
  pub ping : Db → Result Error (Unit {0})

unfoldable pub open_db : {Cfg Db : Type 0} → Pgx Cfg Db → Bytes → Result Error Db
open_db pgx database_url = wrapped "parse database URL" (pgx.parse_config database_url) >>= λ cfg.
    wrapped "open pgx pool" (pgx.new_with_config cfg) >>= λ db.
    wrapped "ping database" (pgx.ping db) >>= λ _. ok db

-- What both processes share.
pub record Started (Db : Type 0) : Type 0 where
  pub cfg : Config
  pub db : Db
  pub storage : S3Storage
  pub stores : Stores

-- The stores of a database are given by the parameters of new_stores.
unfoldable pub start :
    {Cfg Db : Type 0}
    → (stores_of : (token_key : Bytes) → Stores) → (String → Bytes)
    → Pgx Cfg Db
    → Aws
    → Result Error (Started Db)
start stores_of getenv pgx aws = wrapped "load config" (load getenv) >>= λ cfg.
    wrapped "open db" (open_db pgx cfg.database_url) >>= λ db.
    wrapped "open object storage" (new_s3 aws cfg.s3) >>= λ storage.
    ok (record {
      cfg = cfg;
      db = db;
      storage = storage;
      stores = stores_of cfg.token_encryption_key;
    })

wrapped-eq-ok :
    {A : Type 0} (text : String) (r : Result Error A) {a : A} → wrapped text r ≡ ok a → r ≡ ok a
wrapped-eq-ok text (ok a) h = h
wrapped-eq-ok text (err e) h = absurd (cc)

load-key :
    (getenv : String → Bytes) (cfg : Config)
    → load getenv ≡ ok cfg
    → (length cfg.token_encryption_key == 32) ≡ true
unfolding load
load-key getenv cfg h = elim (Bool-cases (is_empty (getenv "DATABASE_URL"))) [
  | inl e ↦ absurd (ground (arith, e))
  | inr e ↦ elim (Bool-cases (length (getenv "TOKEN_ENCRYPTION_KEY") == 32)) [
    | inl k ↦
        let same : read_config getenv ≡ cfg = ground (arith, e, k) in
        subst (λ (c : Config). (length c.token_encryption_key == 32) ≡ true) same k
    | inr k ↦ absurd (ground (arith, e, k))
  ]
]

-- The stores of a process that has started are those of a key of 32 bytes.
start-key :
    {Cfg Db : Type 0} (stores_of : (token_key : Bytes) → Stores) (getenv : String → Bytes)
    (pgx : Pgx Cfg Db) (aws : Aws) (s : Started Db)
    → start stores_of getenv pgx aws ≡ ok s
    → (key : Bytes) × ((length key == 32) ≡ true) × (s.stores ≡ stores_of key)
unfolding start
start-key stores_of getenv pgx aws s h =
    let (cfg, e, f) = >>=-eq-ok (wrapped "load config" (load getenv)) _ h in
    let (db, _, g) = >>=-eq-ok (wrapped "open db" (open_db pgx cfg.database_url)) _ f in
    let (storage, _, k) = >>=-eq-ok (wrapped "open object storage" (new_s3 aws cfg.s3)) _ g in
    (cfg.token_encryption_key, load-key getenv cfg (wrapped-eq-ok _ _ e), cc)

-- A cipher for every key of 32 bytes, as AES has one, and random bytes for its nonces.
pub record IsReady (crypto : Crypto) : Type 0 where
  pub takes :
      (key : Bytes) → (length key == 32) ≡ true → (aead : Aead) × (crypto.new_gcm key ≡ some aead)
  pub draws :
      (n : ℕ) (key : Bytes) (aead : Aead)
      → crypto.new_gcm key ≡ some aead
      → (nonce : Bytes) × (crypto.random n aead.nonce_size ≡ some nonce)

saved_id :
    (env : Env) (crypto : Crypto) (key token : Bytes) (w : World)
    → IsUp env
    → IsReady crypto
    → (length key == 32) ≡ true
    → (save env crypto key token w).0 ≡ ok (env.fresh w.calls)
unfolding save encrypt_token call
saved_id env crypto key token w up ready k =
    let (aead, e) = ready.takes key k in
    let (nonce, f) = ready.draws w.calls key aead e in rw (k, e, f, up.answers w.calls) refl

-- If a process starts, its stores keep tokens: with the database up, AES-GCM as documented and random
-- bytes to draw, every token is saved, under the new identifier that the database gives and no stored
-- token has, and decrypted to itself.
pub start-tokens :
    {Cfg Db : Type 0} (env : Env) (crypto : Crypto) (is_uuid : String → Bool)
    (getenv : String → Bytes) (pgx : Pgx Cfg Db) (aws : Aws) (s : Started Db) (token : Bytes)
    (w : World)
    → start (new_stores env crypto is_uuid) getenv pgx aws ≡ ok s
    → IsUp env
    → IsSealing crypto
    → IsReady crypto
    → All (λ (t : TokenRow). t.id ≢ env.fresh w.calls) w.tokens
    → ((s.stores.tokens.save token w).0 ≡ ok (env.fresh w.calls))
      × ((s.stores.tokens.decrypt (env.fresh w.calls) (s.stores.tokens.save token w).1).0
          ≡ ok token)
unfolding new_stores
start-tokens env crypto is_uuid getenv pgx aws s token w started up sealing ready unused =
    let (key, sized, same) = start-key (new_stores env crypto is_uuid) getenv pgx aws s started in
    let saved = saved_id env crypto key token w up ready sized in
    rw same (saved, decrypt-save env crypto key token w (env.fresh w.calls) up sealing unused saved)
