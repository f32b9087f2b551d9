-- ===== src/Samples.antt =====
-- Sample environments, rows and parameters for the tests of the other modules.
use socialpublish.Store.Tokens.{Aead, Crypto}
use socialpublish.Store.Tokens.Laws.{IsSealing}
use socialpublish.Prelude.{
  ℕ, zero, suc, Option, ◌≡◌, subst, ◌+◌, ◌*◌, ◌%◌, ◌≢◌, true, false, none, some, [], ◌∷◌, All,
  Bytes, length, refl, arith,
}
use socialpublish.GoText.Hex.{IsByte}
use socialpublish.Store.Json.{object, end}
use socialpublish.Store.Types.{Workspace, ApiKey, Account, Post, TargetRow, WebhookEndpoint}
use socialpublish.Store.Database.{World, Env, IsUp, ScansText}

-- A MAC of one byte.
abbrev pub sample_hmac : Bytes → Bytes → Bytes
sample_hmac key text = length text % 256 ∷ []

pub sample_hmac-ne-nil : (key text : Bytes) → sample_hmac key text ≢ []
sample_hmac-ne-nil key text = cc

pub sample_hmac-IsByte : (key text : Bytes) → All IsByte (sample_hmac key text)
sample_hmac-IsByte key text = (omega arith, tt)

-- Every call succeeds, and the n-th one sees the time n seconds.
abbrev pub sample_env : Env
sample_env = record {
  fails = λ n. false;
  now = λ n. (n + 1) * 1000000000;
  fresh = λ n. "new";
  row_id = λ n s. s;
  broken = λ n. none;
  scan_text = λ s. s;
  text_before = λ a b. false;
  library_text = λ e. "failure";
  read_number = λ s. some s;
}

pub sample_env-IsUp : IsUp sample_env
sample_env-IsUp = record { answers = λ n. refl; whole = λ n. refl }

pub sample_env-ScansText : ScansText sample_env
sample_env-ScansText = record { scans = λ s. refl; refuses = refl }

abbrev pub sample_workspace : Workspace
sample_workspace = record {
  id = "acme";
  name = "Acme";
  slug = "acme";
  plan = "free";
  created_at = 0;
  updated_at = 0;
}

-- A key that expires at once.
abbrev pub sample_key : ApiKey
sample_key = record {
  id = "k1";
  workspace_id = "acme";
  key_hash = "hash";
  key_prefix = "sp";
  name = "old";
  last_used_at = none;
  expires_at = some 5;
  created_at = 0;
}

abbrev pub sample_account : Account
sample_account = record {
  id = "a1";
  workspace_id = "acme";
  platform = "youtube";
  platform_user_id = "u1";
  display_name = "Acme";
  avatar_url = "";
  token_id = "tok1";
  token_expires_at = none;
  token_healthy = true;
  created_at = 0;
  updated_at = 0;
}

abbrev pub sample_post : Post
sample_post = record {
  id = "p1";
  workspace_id = "acme";
  status = "draft";
  media_ids = [];
  scheduled_at = none;
  published_at = none;
  metadata = object end;
  created_at = 0;
  updated_at = 0;
}

-- A target as it is inserted.
abbrev pub sample_target : TargetRow
sample_target = record {
  id = "t1";
  post_id = "p1";
  account_id = "a1";
  platform = "youtube";
  format = "short";
  config = object end;
  status = "pending";
  platform_post_id = none;
  permalink = none;
  failure_reason = none;
  attempt_count = 0;
  last_attempted_at = none;
  published_at = none;
}

abbrev pub sample_endpoint : WebhookEndpoint
sample_endpoint = record {
  id = "e1";
  workspace_id = "acme";
  url = "https://acme.test/hook";
  secret_hash = "";
  secret_enc = "tok2";
  events = [];
  enabled = true;
  created_at = 0;
}

abbrev pub sample_world : World
sample_world = record {
  workspaces = sample_workspace ∷ [];
  api_keys = sample_key ∷ [];
  accounts = sample_account ∷ [];
  media = [];
  posts = sample_post ∷ [];
  targets = sample_target ∷ [];
  snapshots = [];
  endpoints = sample_endpoint ∷ [];
  deliveries = [];
  tokens = [];
  queue = [];
  calls = 0;
}

-- A cipher that seals nothing, with nonces of one byte.
abbrev pub sample_aead : Aead
sample_aead = record { nonce_size = 1; seal = λ nonce t. t; unseal = λ nonce t. some t }

abbrev pub sample_random : ℕ → ℕ → Option Bytes
sample_random n zero = none
sample_random n (suc zero) = some (7 ∷ [])
sample_random n (suc (suc size)) = none

abbrev pub sample_crypto : Crypto
sample_crypto = record { new_gcm = λ key. some sample_aead; random = sample_random }

-- A key of 32 bytes.
abbrev pub sample_token_key : Bytes
sample_token_key =
    1 ∷ 2 ∷ 3 ∷ 4 ∷ 5 ∷ 6 ∷ 7 ∷ 8 ∷ 1 ∷ 2 ∷ 3 ∷ 4 ∷ 5 ∷ 6 ∷ 7 ∷ 8 ∷ 1 ∷ 2 ∷ 3 ∷ 4 ∷ 5 ∷ 6 ∷ 7 ∷ 8
    ∷ 1 ∷ 2 ∷ 3 ∷ 4 ∷ 5 ∷ 6 ∷ 7 ∷ 8 ∷ []

pub sample_crypto-IsSealing : IsSealing sample_crypto
sample_crypto-IsSealing = record { opens = opens; sized = sized }
  where
    opens :
        (key : Bytes) (aead : Aead) (nonce plaintext : Bytes)
        → sample_crypto.new_gcm key ≡ some aead
        → length nonce ≡ aead.nonce_size
        → aead.unseal nonce (aead.seal nonce plaintext) ≡ some plaintext
    opens key aead nonce plaintext e size =
        let same : sample_aead ≡ aead = cc in
        subst (λ (a : Aead). a.unseal nonce (a.seal nonce plaintext) ≡ some plaintext) same refl

    sized : (n size : ℕ) (nonce : Bytes) → sample_random n size ≡ some nonce → length nonce ≡ size
    sized n zero nonce h = absurd (ground arith)
    sized n (suc zero) nonce h = ground arith
    sized n (suc (suc size)) nonce h = absurd (ground arith)
