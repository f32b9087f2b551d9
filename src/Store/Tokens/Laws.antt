-- ===== src/Store/Tokens/Laws.antt =====
-- internal/store/postgres.go: what tokenStore stores can be decrypted again.
use socialpublish.Prelude.{
  ℕ, suc, String, true, some, List, [], ◌∷◌, ◌++◌, str_eq, str_eq_iff, All, Bytes, length,
  length-append, take-length_append, drop-length_append, Result, ok, Bool-cases, Option-cases,
  Result-cases, inl, inr, ◌≡◌, ◌≢◌, refl, ap, arith, ◌==◌,
}
use socialpublish.Store.Types.{TokenRow}
use socialpublish.Store.Database.{World, Env, IsUp, Error, call, one_row}
use socialpublish.Store.Tokens.{
  Aead, Crypto, encrypt_token, decrypt_token, decrypt, decrypt_found, save, insert_token,
}

-- What AES-GCM promises: opening undoes sealing, and nonces have the size that was asked for.
pub record IsSealing (crypto : Crypto) : Type 0 where
  pub opens :
      (key : Bytes) (aead : Aead) (nonce plaintext : Bytes)
      → crypto.new_gcm key ≡ some aead
      → length nonce ≡ aead.nonce_size
      → aead.unseal nonce (aead.seal nonce plaintext) ≡ some plaintext
  pub sized : (n size : ℕ) (nonce : Bytes) → crypto.random n size ≡ some nonce → length nonce ≡ size

module _ (crypto : Crypto) (sealing : IsSealing crypto) where
  opened_again :
      (key : Bytes) (aead : Aead) (nonce token sealed : Bytes)
      → crypto.new_gcm key ≡ some aead
      → length nonce ≡ aead.nonce_size
      → sealed ≡ nonce ++ aead.seal nonce token
      → decrypt_token crypto key sealed ≡ ok token
  unfolding decrypt_token
  opened_again key aead nonce token sealed e size h =
      let text = aead.seal nonce token in
      ground (
        arith,
        sealing.opens key aead nonce token e size,
        length-append nonce text,
        take-length_append nonce text,
        drop-length_append nonce text,
      )

  -- For an AEAD whose opening undoes its sealing: what is encrypted under a key is decrypted under
  -- the same key to the same text.
  pub decrypt_token-encrypt_token :
      (n : ℕ) (key token sealed : Bytes)
      → encrypt_token crypto n key token ≡ ok sealed
      → decrypt_token crypto key sealed ≡ ok token
  unfolding encrypt_token decrypt_token
  decrypt_token-encrypt_token n key token sealed h = elim (Option-cases (crypto.new_gcm key)) [
    | inl e ↦ absurd (ground arith)
    | inr (aead, e) ↦ elim (Option-cases (crypto.random n aead.nonce_size)) [
      | inl f ↦ absurd (ground arith)
      | inr (nonce, f) ↦
          opened_again key aead nonce token sealed e (sealing.sized n aead.nonce_size nonce f)
            (ground arith)
    ]
  ]

-- The row of an identifier that no earlier row has.
one_row_last :
    (id : String) (rows : List TokenRow) (row : TokenRow)
    → All (λ (t : TokenRow). t.id ≢ id) rows
    → row.id ≡ id
    → one_row (λ (t : TokenRow). str_eq t.id id) (rows ++ row ∷ []) ≡ ok row
unfolding one_row
one_row_last id [] row h e = ground (arith, str_eq_iff row.id id)
one_row_last id (t ∷ ts) row (n, h) e =
    ground (arith, str_eq_iff t.id id, one_row_last id ts row h e)

module _ (env : Env) (crypto : Crypto) (key : Bytes) where
  save_eq :
      (token : Bytes) (w : World) (sealed : Bytes)
      → IsUp env
      → (length key == 32) ≡ true
      → encrypt_token crypto w.calls key token ≡ ok sealed
      → save env crypto key token w ≡ (
        ok (env.fresh w.calls),
        record w {
          tokens = w.tokens ++ record { id = env.fresh w.calls; ciphertext = sealed } ∷ [];
          calls = suc w.calls;
        },
      )
  unfolding save insert_token call
  save_eq token w sealed up k e = rw (k, e, up.answers w.calls) refl

  save_sound :
      (token : Bytes) (w : World) (token_id : String)
      → IsUp env
      → (save env crypto key token w).0 ≡ ok token_id
      → (sealed : Bytes) × (encrypt_token crypto w.calls key token ≡ ok sealed)
        × (token_id ≡ env.fresh w.calls)
        × ((length key == 32) ≡ true)
        × ((save env crypto key token w).1.tokens
            ≡ w.tokens ++ record { id = env.fresh w.calls; ciphertext = sealed } ∷ [])
  unfolding save insert_token call
  save_sound token w token_id up h = elim (Result-cases (encrypt_token crypto w.calls key token)) [
    | inl (sealed, e) ↦ elim (Bool-cases (length key == 32)) [
      | inl k ↦
          let made = save_eq token w sealed up k e in
          (sealed, e, ground arith, k, ap (λ (x : Result Error String × World). x.1.tokens) made)
      | inr k ↦ absurd (ground arith)
    ]
    | inr (x, e) ↦ absurd (ground arith)
  ]

  decrypt_row :
      (w : World) (token_id : String) (row : TokenRow) (token : Bytes)
      → IsUp env
      → (length key == 32) ≡ true
      → one_row (λ (t : TokenRow). str_eq t.id token_id) w.tokens ≡ ok row
      → decrypt_token crypto key row.ciphertext ≡ ok token
      → (decrypt env crypto key token_id w).0 ≡ ok token
  unfolding decrypt decrypt_found call
  decrypt_row w token_id row token up k found opened =
      rw (k, up.answers w.calls, found, opened) refl

-- For an AEAD whose opening undoes its sealing, random nonces of the size that is asked for, and a
-- database that answers: a token that was saved under an identifier that no stored token has is
-- decrypted to itself under that identifier.
pub decrypt-save :
    (env : Env) (crypto : Crypto) (key token : Bytes) (w : World) (token_id : String)
    → IsUp env
    → IsSealing crypto
    → All (λ (t : TokenRow). t.id ≢ env.fresh w.calls) w.tokens
    → (save env crypto key token w).0 ≡ ok token_id
    → (decrypt env crypto key token_id (save env crypto key token w).1).0 ≡ ok token
decrypt-save env crypto key token w token_id up sealing unused h =
    let (sealed, e, same, k, tokens) = save_sound env crypto key token w token_id up h in
    decrypt_row env crypto key (save env crypto key token w).1 token_id
      (record { id = env.fresh w.calls; ciphertext = sealed }) token up k
      (rw (tokens, same) (one_row_last (env.fresh w.calls) w.tokens _ unused refl))
      (decrypt_token-encrypt_token crypto sealing w.calls key token sealed e)
