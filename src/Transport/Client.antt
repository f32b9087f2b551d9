-- ===== src/Transport/Client.antt =====
-- sdk/client.go: New, and sdk/options.go. Texts are byte strings; the services that New makes are
-- those of Sdk/Wired.antt.
use socialpublish.Prelude.{
  ℕ, ◌*◌, ◌&&◌, Option, none, some, List, [], ◌∷◌, ◌++◌, All, Bytes, codes, is_empty, if◌then◌else◌,
  ◌==◌, ℤ, pos, Result, ok, err, ◌≡◌, ◌≢◌, ◌↔◌, refl, subst, Bool-cases, inl, inr, arith, ap, sym,
  ◌∙◌, ◌⊎◌,
}
use socialpublish.Webhook.Signature.{second}
use socialpublish.Transport.Backoff.{millisecond}

-- *http.Client, of which the program reads the timeout.
pub record HttpClient : Type 0 where
  pub timeout : ℤ

pub record Config : Type 0 where
  pub api_key : Bytes
  pub base_url : Bytes
  pub timeout : ℤ
  pub max_retries : ℤ
  pub retry_wait_min : ℤ
  pub retry_wait_max : ℤ
  pub http_client : Option HttpClient

abbrev pub default_base_url : Bytes
default_base_url = codes "https://api.socialpublish.io"

unfoldable pub with_api_key : Bytes → Config → Config
with_api_key key c = record c { api_key = key }

unfoldable pub with_base_url : Bytes → Config → Config
with_base_url url c = record c { base_url = url }

unfoldable pub with_timeout : ℤ → Config → Config
with_timeout d c = record c { timeout = d }

unfoldable pub with_max_retries : ℤ → Config → Config
with_max_retries n c = record c { max_retries = n }

unfoldable pub with_http_client : HttpClient → Config → Config
with_http_client hc c = record c { http_client = some hc }

-- The loop over the options.
unfoldable pub apply_options : List (Config → Config) → Config → Config
apply_options [] c = c
apply_options (opt ∷ opts) c = apply_options opts (opt c)

abbrev pub defaults : Config
defaults = record {
  api_key = [];
  base_url = default_base_url;
  timeout = pos (30 * second);
  max_retries = pos 3;
  retry_wait_min = pos (500 * millisecond);
  retry_wait_max = pos (30 * second);
  http_client = none;
}

-- strings.TrimRight(text, "/")
unfoldable pub trim_slashes : Bytes → Bytes
trim_slashes [] = []
trim_slashes (c ∷ text) =
    let rest = trim_slashes text in if is_empty rest && (c == b'/') then [] else c ∷ rest

-- The key of the options, else that of the environment.
unfoldable pub key_or_env : Bytes → Bytes → Bytes
key_or_env key env_key = if is_empty key then env_key else key

pub data NewError : Type 0 where
  api_key_required : NewError

-- `env_key` is the value of SOCIALPUBLISH_API_KEY, empty if it is not set.
unfoldable pub new_client : (env_key : Bytes) → List (Config → Config) → Result NewError Config
unfolding key_or_env
new_client env_key opts =
    let cfg = apply_options opts defaults in
    let key = key_or_env cfg.api_key env_key in
    if is_empty key
    then err api_key_required
    else ok (record cfg { api_key = key; base_url = trim_slashes cfg.base_url })

-- One character in front of a text that is trimmed.
abbrev trimmed : ℕ → Bytes → Bytes
trimmed c rest = if is_empty rest && (c == b'/') then [] else c ∷ rest

trimmed-cases :
    (c : ℕ) (rest : Bytes)
    → ((rest ≡ []) × (c ≡ b'/') × (trimmed c rest ≡ []))
      ⊎ ((trimmed c rest ≡ c ∷ rest) × (rest ≡ [] → c ≢ b'/'))
trimmed-cases c [] = elim (Bool-cases (c == b'/')) [
  | inl e ↦ inl (refl, ground arith, rw e refl)
  | inr e ↦ inr (rw e refl, λ _. ground arith)
]
trimmed-cases c (r ∷ rest) = inr (refl, λ h. absurd (cc))

ends-cases :
    (c : ℕ) (rest front : Bytes)
    → (rest ≡ [] → c ≢ b'/')
    → ((f : Bytes) → rest ≢ f ++ b'/' ∷ [])
    → c ∷ rest ≢ front ++ b'/' ∷ []
ends-cases c rest [] last inner e = last (cc) (cc)
ends-cases c rest (d ∷ front) last inner e = inner front (cc)

nil-end : (front : Bytes) → [] ≢ front ++ b'/' ∷ []
nil-end [] = cc
nil-end (d ∷ front) = cc

trim_slashes-end : (text front : Bytes) → trim_slashes text ≢ front ++ b'/' ∷ []
unfolding trim_slashes
trim_slashes-end [] front e = nil-end front e
trim_slashes-end (c ∷ text) front e = elim (trimmed-cases c (trim_slashes text)) [
  | inl (_, _, nothing) ↦ nil-end front (sym nothing ∙ e)
  | inr (kept, last) ↦
      ends-cases c (trim_slashes text) front last (trim_slashes-end text) (sym kept ∙ e)
]

abbrev pub IsSlash : ℕ → Type 0
IsSlash c = c ≡ b'/'

trim_slashes-prefix :
    (text : Bytes) → (slashes : Bytes) × All IsSlash slashes × (text ≡ trim_slashes text ++ slashes)
unfolding trim_slashes
trim_slashes-prefix [] = ([], tt, refl)
trim_slashes-prefix (c ∷ text) =
    let (slashes, are, same) = trim_slashes-prefix text in
    elim (trimmed-cases c (trim_slashes text)) [
      | inl (gone, slash, nothing) ↦
          (c ∷ slashes, (slash, are), rw nothing (ap (λ (t : Bytes). c ∷ t) (same ∙ rw gone refl)))
      | inr (kept, last) ↦ (slashes, are, rw kept (ap (λ (t : Bytes). c ∷ t) same))
    ]

key_or_env-nil : (key env_key : Bytes) → (key_or_env key env_key ≡ []) ↔ (key ≡ []) × (env_key ≡ [])
unfolding key_or_env
key_or_env-nil [] env_key = (λ h. (refl, h), λ h. h.1)
key_or_env-nil (c ∷ key) env_key = (λ h. absurd (cc), λ (h, _). absurd (cc))

-- The end of New, for the settings and the key that were found.
abbrev made : Config → Bytes → Result NewError Config
made c key =
    if is_empty key
    then err api_key_required
    else ok (record c { api_key = key; base_url = trim_slashes c.base_url })

made-fails : (c : Config) (key : Bytes) → (made c key ≡ err api_key_required) ↔ (key ≡ [])
made-fails c [] = (λ h. refl, λ h. refl)
made-fails c (k ∷ key) = (λ h. absurd (cc), λ h. absurd (cc))

-- What a client has of the settings `c`.
abbrev pub IsClientOf : Config → Config → Type 0
IsClientOf c cfg =
    (cfg.api_key ≢ [])
    × ((front : Bytes) → cfg.base_url ≢ front ++ b'/' ∷ [])
    × ((slashes : Bytes) × All IsSlash slashes × (c.base_url ≡ cfg.base_url ++ slashes))
    × (cfg.timeout ≡ c.timeout)
    × (cfg.max_retries ≡ c.max_retries)
    × (cfg.retry_wait_min ≡ c.retry_wait_min)
    × (cfg.retry_wait_max ≡ c.retry_wait_max)

made-ok : (c : Config) (key : Bytes) (cfg : Config) → made c key ≡ ok cfg → IsClientOf c cfg
made-ok c [] cfg h = absurd (cc)
made-ok c (k ∷ key) cfg h =
    let settings : Config = record c { api_key = k ∷ key; base_url = trim_slashes c.base_url } in
    let same : settings ≡ cfg = cc in
    subst (IsClientOf c) same
      (cc, trim_slashes-end c.base_url, trim_slashes-prefix c.base_url, refl, refl, refl, refl)

module _ (env_key : Bytes) (opts : List (Config → Config)) where
  -- New fails exactly when neither the options nor the environment give an API key.
  new_client-fails :
      (new_client env_key opts ≡ err api_key_required)
      ↔ ((apply_options opts defaults).api_key ≡ []) × (env_key ≡ [])
  unfolding new_client
  new_client-fails =
      let c = apply_options opts defaults in
      let (f, g) = made-fails c (key_or_env c.api_key env_key) in
      let (a, b) = key_or_env-nil c.api_key env_key in (λ h. a (f h), λ h. g (b h))

  -- A client that New makes has a key that is not empty, and the base URL of the options without
  -- the slashes at its end; the timeout, the retries and the waits are as the options leave them.
  pub new_client-ok :
      (cfg : Config)
      → new_client env_key opts ≡ ok cfg
      → IsClientOf (apply_options opts defaults) cfg
  unfolding new_client
  new_client-ok cfg h = made-ok (apply_options opts defaults) _ cfg h
