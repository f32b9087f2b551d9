-- ===== src/Store/Tokens.antt =====
-- internal/store/postgres.go: tokenStore, encryptToken and decryptToken. AES-GCM is a parameter: the
-- cipher of a key, if the key has a length that AES takes, and the random nonces that are drawn.
pub mod Laws
use Prim.Native.String
use socialpublish.Prelude.{
  ℕ, String, not, Option, none, some, List, [], ◌∷◌, ◌++◌, if◌then◌else◌, str_eq, ltb, ◌==◌, Bytes,
  length, take, drop, Result, ok, err,
}
use socialpublish.Store.Types.{TokenRow}
use socialpublish.Store.Database.{
  World, Env, Error, failure, plain, wrap, S, call, wrapped, one_row, named,
}

-- cipher.AEAD; `unseal` is none if the text was not sealed so.
pub record Aead : Type 0 where
  pub nonce_size : ℕ
  pub seal : (nonce plaintext : Bytes) → Bytes
  pub unseal : (nonce ciphertext : Bytes) → Option Bytes

-- aes.NewCipher followed by cipher.NewGCM, and the bytes that the n-th call reads from rand.Reader.
pub record Crypto : Type 0 where
  pub new_gcm : Bytes → Option Aead
  pub random : ℕ → ℕ → Option Bytes

unfoldable pub encrypt_token : Crypto → ℕ → (key token : Bytes) → Result Error Bytes
encrypt_token crypto n key token = elim (crypto.new_gcm key) [
  | none ↦ err failure
  | some aead ↦ elim (crypto.random n aead.nonce_size) [
    | none ↦ err failure
    | some nonce ↦ ok (nonce ++ aead.seal nonce token)
  ]
]

unfoldable pub decrypt_token : Crypto → (key sealed : Bytes) → Result Error Bytes
decrypt_token crypto key sealed = elim (crypto.new_gcm key) [
  | none ↦ err failure
  | some aead ↦
      if ltb (length sealed) aead.nonce_size
      then err (plain "ciphertext too short")
      else elim (aead.unseal (take aead.nonce_size sealed) (drop aead.nonce_size sealed)) [
        | none ↦ err failure
        | some plaintext ↦ ok plaintext
      ]
]

module _ (env : Env) (crypto : Crypto) (key : Bytes) where
  decrypt_found : String → Result Error TokenRow → Result Error Bytes
  decrypt_found token_id (err e) = err (wrap (named "query encrypted token " token_id "") e)
  decrypt_found token_id (ok row) =
      wrapped (named "decrypt token " token_id "") (decrypt_token crypto key row.ciphertext)

  unfoldable pub decrypt : String → S (Result Error Bytes)
  unfolding decrypt_found
  decrypt token_id w =
      if not (length key == 32)
      then (err (plain (named "decrypt token " token_id ": invalid encryption key")), w)
      else call env
          (λ n w'. (
            decrypt_found token_id (one_row (λ (t : TokenRow). str_eq t.id token_id) w'.tokens),
            w',
          ))
          w

  -- The insertion of a ciphertext.
  insert_token : Bytes → S (Result Error String)
  insert_token ciphertext = call env λ n w. (
    ok (env.fresh n),
    record w { tokens = w.tokens ++ record { id = env.fresh n; ciphertext = ciphertext } ∷ [] },
  )

  unfoldable pub save : Bytes → S (Result Error String)
  unfolding insert_token
  save token w =
      if not (length key == 32)
      then (err (plain "save token: invalid encryption key"), w)
      else elim (encrypt_token crypto w.calls key token) [
        | err e ↦ (err (wrap "encrypt token" e), w)
        | ok ciphertext ↦
            let (r, w') = insert_token ciphertext w in (wrapped "insert encrypted token" r, w')
      ]
