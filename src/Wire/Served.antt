-- ===== src/Wire/Served.antt =====
-- The two ends of a request: decodeBody and writeJSON of internal/api/handler/common.go on texts, and
-- the decoders that handleResponse of sdk/transport.go is given.
use socialpublish.Prelude.{String, [], Bytes, ℕ, ℤ, Option, none, some, ◌≡◌, take, ◌^◌, codes}
use socialpublish.GoText.Print.{strconv_itoa}
use socialpublish.Store.Json.{Json}
use socialpublish.Store.Database.{Env, S}
use socialpublish.Api.Http
use socialpublish.Api.Post
use socialpublish.Api.Post.{CreatePostRequest}
use socialpublish.Transport.Retry.{Response, Codec}
use socialpublish.Wire.Values.{JsonText, TimeText, IsRead}
use socialpublish.Wire.Answers.{body_json}
use socialpublish.Wire.Reads.{read_error_body, no_error_body}
use socialpublish.Wire.Requests.{read_create_request, no_create_request}

-- http.MaxBytesReader(nil, r.Body, 1<<20)
abbrev pub max_body : ℕ
max_body = 2 ^ 20

-- The first value of a text, read as a Go value.
unfoldable pub decode : {A : Type 0} → JsonText → (Json → A → Option A) → A → Bytes → Option A
decode json read out b = elim (json.parse b) [ none ↦ none | some j ↦ read j out ]

-- The text of Retry-After, [] without the header.
unfoldable pub retry_text : Option ℤ → Bytes
retry_text none = []
retry_text (some seconds) = codes (strconv_itoa seconds)

module _ (json : JsonText) (times : TimeText) where
  -- http.StatusText and http.ParseTime are parameters.
  abbrev pub codec :
      {A : Type 0} → (Json → A → Option A) → A → (ℕ → String) → (Bytes → Option ℤ) → Codec A
  codec read out status_text until = record {
    decode = decode json read out;
    decode_error = decode json read_error_body no_error_body;
    status_text = status_text;
    until = until;
  }

  written : Option Json → Bytes
  written none = []
  written (some j) = json.print j

  -- The server does not set X-Request-ID; it sets Retry-After, to a number of seconds, where the rate
  -- limit refuses a request.
  unfoldable pub on_wire :
      (chars : Bytes → String) (retry_after : Option ℤ) → Http.Response → Response
  unfolding written body_json retry_text
  on_wire chars retry_after answer = record {
    status = answer.status;
    request_id = "";
    retry_after = retry_text retry_after;
    body = some (written (body_json times chars answer.body));
  }

  -- The client reads the body of an answer as it was written.
  abbrev pub IsReadable : (chars : Bytes → String) → Http.Body → Type 0
  IsReadable chars b = (j : Json) → body_json times chars b ≡ some j → IsRead json j

  -- At most the first megabyte is read; a request without a body is an error.
  unfoldable pub decode_body : Option Bytes → Option CreatePostRequest
  unfolding decode
  decode_body none = none
  decode_body (some b) = decode json (read_create_request times) no_create_request (take max_body b)

  unfoldable pub serve_create : Env → (workspace_id : String) → Option Bytes → S Http.Response
  unfolding decode_body
  serve_create env workspace_id body = Post.create env workspace_id (decode_body body)
