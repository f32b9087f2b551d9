-- ===== src/Sdk/Authenticated.antt =====
-- From a client of sdk/client.go over a request of sdk/transport.go to the server's
-- internal/api/middleware/auth.go.
use socialpublish.Prelude.{
  suc, String, false, Option, none, some, List, [], ◌∷◌, ◌++◌, Bytes, codes, is_empty, str_eq,
  if◌then◌else◌, Result, ok, ◌≡◌, ◌≢◌, refl, subst, guard-eq-ok,
}
use socialpublish.Store.Types.{ApiKey}
use socialpublish.Store.Database.{World, Env, IsUp, S, ◌>>=◌, query, one_row, update_where}
use socialpublish.Store.Accounts.{find_by_hash, touch_last_used}
use socialpublish.Api.Http.{Response}
use socialpublish.Api.Middleware.{Workspace, authenticate, trim_prefix, is_expired}
use socialpublish.Transport.Client.{Config, new_client, new_client-ok}
use socialpublish.Transport.Request.{
  HttpRequest, UrlLibrary, RequestError, new_request, header_authorization, parsed_request,
}
use socialpublish.Sdk.Request.{Method, StringMap}

-- r.Header.Get(name), empty if it is not set.
unfoldable pub header : String → List (String × Bytes) → Bytes
header name [] = []
header name ((other, value) ∷ hs) =
    let rest = header name hs in if str_eq other name then value else rest

ok-eq-ok : {a b : HttpRequest} → Path (Result RequestError HttpRequest) (ok a) (ok b) → a ≡ b
ok-eq-ok h = cc

is_empty-false : (text : Bytes) → text ≢ [] → is_empty text ≡ false
is_empty-false [] h = absurd (h refl)
is_empty-false (c ∷ text) h = refl

module _ {U : Type 0} (urls : UrlLibrary U) (cfg : Config) (method : Method) (path : Bytes)
    (query_values : Option StringMap) (payload : Option Bytes) (req : HttpRequest) where
  authorization-parsed_request :
      (u : Option U)
      → parsed_request urls cfg method query_values payload u ≡ ok req
      → header header_authorization req.headers ≡ codes "Bearer " ++ cfg.api_key
  unfolding parsed_request header
  authorization-parsed_request none built = absurd (cc)
  authorization-parsed_request (some u) built =
      let (_, made) = guard-eq-ok _ _ _ built in
      let same = ok-eq-ok made in
      subst
        (λ (r : HttpRequest).
          header header_authorization r.headers ≡ codes "Bearer " ++ cfg.api_key)
        same refl

  authorization-new_request :
      new_request urls cfg method path query_values payload ≡ ok req
      → header header_authorization req.headers ≡ codes "Bearer " ++ cfg.api_key
  unfolding new_request
  authorization-new_request built = authorization-parsed_request _ built

-- The state when the handler runs: the time of the last use of the key is stored.
abbrev pub touched : Env → ApiKey → World → World
touched env row w = record w {
  api_keys =
      update_where (λ (k : ApiKey). str_eq k.id row.id)
        (λ k. record k { last_used_at = some (env.now (suc w.calls)) }) w.api_keys;
  calls = suc (suc w.calls);
}

module _ (env : Env) (sha256_hex : Bytes → String) (api_key : Bytes) (row : ApiKey)
    (w : World) where
  let_through :
      (next : Workspace → S Response)
      → IsUp env
      → api_key ≢ []
      → one_row (λ (k : ApiKey). str_eq k.key_hash (sha256_hex api_key)) w.api_keys ≡ ok row
      → is_expired (env.now (suc w.calls)) row ≡ false
      → authenticate env sha256_hex (codes "Bearer " ++ api_key) next w
        ≡ next (record { id = row.workspace_id; plan = "free" }) (touched env row w)
  unfolding authenticate find_by_hash touch_last_used ◌>>=◌ query trim_prefix
  let_through next up nonempty found fresh =
      rw
        (
          is_empty-false api_key nonempty,
          up.answers w.calls,
          found,
          fresh,
          up.answers (suc w.calls),
        )
        refl

-- A request that a client of New sends carries the key of the client: with the database up and a
-- stored key of that hash that has not expired, Authenticate hands the request on for the workspace
-- of the key, whatever the handler behind.
pub authenticate-new_request :
    {U : Type 0} (urls : UrlLibrary U) (env_key : Bytes) (opts : List (Config → Config))
    (cfg : Config) (method : Method) (path : Bytes) (query_values : Option StringMap)
    (payload : Option Bytes) (req : HttpRequest) (env : Env) (sha256_hex : Bytes → String)
    (row : ApiKey) (w : World) (next : Workspace → S Response)
    → new_client env_key opts ≡ ok cfg
    → new_request urls cfg method path query_values payload ≡ ok req
    → IsUp env
    → one_row (λ (k : ApiKey). str_eq k.key_hash (sha256_hex cfg.api_key)) w.api_keys ≡ ok row
    → is_expired (env.now (suc w.calls)) row ≡ false
    → authenticate env sha256_hex (header header_authorization req.headers) next w
      ≡ next (record { id = row.workspace_id; plan = "free" }) (touched env row w)
authenticate-new_request urls env_key opts cfg method path query_values payload req env sha256_hex
      row w next made built up found fresh =
    let nonempty = (new_client-ok env_key opts cfg made).0 in
    rw (authorization-new_request urls cfg method path query_values payload req built)
      (let_through env sha256_hex cfg.api_key row w next up nonempty found fresh)
