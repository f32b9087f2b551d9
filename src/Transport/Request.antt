-- ===== src/Transport/Request.antt =====
-- sdk/transport.go: newTransport and transport.newRequest. url.Parse, URL.String, Values.Encode and
-- the checks of http.NewRequest are parameters.
use socialpublish.Prelude.{
  String, Bool, false, not, Option, none, some, List, [], ◌∷◌, ◌++◌, Bytes, codes, is_empty,
  if◌then◌else◌, ◌==◌, ℤ, pos, Result, ok, err,
}
use socialpublish.Sdk.Request.{Method, StringMap}
use socialpublish.Transport.Client.{Config, HttpClient}

abbrev pub sdk_version : Bytes
sdk_version = codes "0.1.0"

abbrev pub header_authorization : String
header_authorization = "Authorization"

abbrev pub header_user_agent : String
header_user_agent = "User-Agent"

abbrev is_zero : ℤ → Bool
is_zero (pos n) = n == 0
is_zero _ = false

-- The client that requests are sent with: the one of the options, with a timeout if it has none.
unfoldable pub new_transport : Config → HttpClient
new_transport cfg = elim cfg.http_client [
  | none ↦ record { timeout = cfg.timeout }
  | some hc ↦ if is_zero hc.timeout then record hc { timeout = cfg.timeout } else hc
]

-- A URL of type `U`.
pub record UrlLibrary (U : Type 0) : Type 0 where
  pub parse : Bytes → Option U
  pub set_query : U → Bytes → U
  pub print : U → Bytes
  pub encode : StringMap → Bytes
  pub accepts : Method → Bytes → Bool

pub record HttpRequest : Type 0 where
  pub method : Method
  pub url : Bytes
  pub headers : List (String × Bytes)
  pub body : Option Bytes

pub data RequestError : Type 0 where
  parse_request_url : RequestError
  create_request : RequestError

-- strings.TrimLeft(path, "/")
unfoldable pub trim_left_slashes : Bytes → Bytes
trim_left_slashes [] = []
trim_left_slashes (c ∷ text) =
    let rest = trim_left_slashes text in if c == b'/' then rest else c ∷ text

abbrev json_header : Option Bytes → List (String × Bytes)
json_header none = []
json_header (some payload) = ("Content-Type", codes "application/json") ∷ []

module _ {U : Type 0} (urls : UrlLibrary U) (cfg : Config) where
  with_query : U → Option StringMap → U
  with_query u none = u
  with_query u (some query) = if is_empty query then u else urls.set_query u (urls.encode query)

  -- The request to a URL, with its headers.
  abbrev pub made_request : Method → Bytes → Option Bytes → HttpRequest
  made_request method url payload = record {
    method = method;
    url = url;
    headers =
        (header_authorization, codes "Bearer " ++ cfg.api_key)
        ∷ (header_user_agent, codes "socialpublish-go/" ++ sdk_version)
        ∷ json_header payload;
    body = payload;
  }

  unfoldable pub parsed_request :
      Method → Option StringMap → Option Bytes → Option U → Result RequestError HttpRequest
  unfolding with_query
  parsed_request method query payload none = err parse_request_url
  parsed_request method query payload (some u) =
      if not (urls.accepts method (urls.print (with_query u query)))
      then err create_request
      else ok (made_request method (urls.print (with_query u query)) payload)

  unfoldable pub new_request :
      (method : Method) (path : Bytes) (query : Option StringMap) (payload : Option Bytes)
      → Result RequestError HttpRequest
  unfolding parsed_request trim_left_slashes
  new_request method path query payload =
      parsed_request method query payload
        (urls.parse (cfg.base_url ++ b'/' ∷ trim_left_slashes path))
