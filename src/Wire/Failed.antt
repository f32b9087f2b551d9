-- ===== src/Wire/Failed.antt =====
-- An error of writeError of internal/api/handler/common.go or of RateLimit of
-- internal/api/middleware/ratelimit.go behind handleResponse of sdk/transport.go.
use socialpublish.Prelude.{
  ℕ, [], ◌∷◌, String, Bool, false, Option, none, some, Bytes, err, ◌≡◌, refl, ◌&&◌, leb, ltb, ℤ,
  pos, negsuc, codes, arith, ◌∙◌, ap,
}
use socialpublish.GoText.Print.{strconv_itoa}
use socialpublish.GoText.Print.Codes.{codes-strconv_itoa}
use socialpublish.GoText.Decimal.{InInt64, parse_int, parse_int-format_int}
use socialpublish.Store.Json.{Json, null, text}
use socialpublish.Api.Http.{error_body}
use socialpublish.Transport.Errors.{api, code_for_status}
use socialpublish.Transport.Backoff.{parse_retry_after, wrap_int64, scale_seconds}
use socialpublish.Transport.Retry.{attempt_result, handle_response, response_error, or_else}
use socialpublish.Wire.Values.{JsonText, TimeText, struct, fields_of}
use socialpublish.Wire.Answers.{body_json}
use socialpublish.Wire.Reads.{read_error_body}
use socialpublish.Wire.Served.{codec, on_wire, retry_text, decode, IsReadable}

-- The seconds of Retry-After, if it is set, are an int64 of nanoseconds.
abbrev pub IsDuration : Option ℤ → Type 0
IsDuration retry_after = elim retry_after [
  | none ↦ Unit {0}
  | some seconds ↦ InInt64 (scale_seconds seconds)
]

InInt64-scale_seconds : (z : ℤ) → InInt64 (scale_seconds z) → InInt64 z
InInt64-scale_seconds (pos n) h = omega (arith, h)
InInt64-scale_seconds (negsuc n) h = omega (arith, h)

wrap_int64-InInt64 : (z : ℤ) → InInt64 z → wrap_int64 z ≡ z
unfolding wrap_int64
wrap_int64-InInt64 (pos n) h = ground (arith, h)
wrap_int64-InInt64 (negsuc n) h = ground (arith, h)

parse_retry_after-parse_int :
    (until : Bytes → Option ℤ) (value : Bytes) (z : ℤ)
    → parse_int value ≡ some z
    → parse_retry_after until value ≡ some (wrap_int64 (scale_seconds z))
unfolding parse_retry_after
parse_retry_after-parse_int until [] z h = absurd (unfold parse_int in cc)
parse_retry_after-parse_int until (c ∷ s) z h = rw h refl

-- The client reads the seconds as a duration.
parse_retry_after-retry_text :
    (until : Bytes → Option ℤ) (retry_after : Option ℤ)
    → IsDuration retry_after
    → parse_retry_after until (retry_text retry_after)
      ≡ elim retry_after [ none ↦ none | some seconds ↦ some (scale_seconds seconds) ]
unfolding parse_retry_after retry_text
parse_retry_after-retry_text until none h = refl
parse_retry_after-retry_text until (some z) h =
    parse_retry_after-parse_int until (codes (strconv_itoa z)) z
      (ap parse_int (codes-strconv_itoa z) ∙ parse_int-format_int z (InInt64-scale_seconds z h))
    ∙ ap some (wrap_int64-InInt64 (scale_seconds z) h)

module _ (json : JsonText) (times : TimeText) (chars : Bytes → String) {A : Type 0}
    (read : Json → A → Option A) (out : A) (status_text : ℕ → String)
    (until : Bytes → Option ℤ) where
  -- An error that the server answers, with a status outside 200 to 299, is at the client, where
  -- its body is read as it was written, an error of the API with the same status, with the code and
  -- the message of the server where these are not empty, and with the seconds of Retry-After as
  -- the time to wait where the server sets them and they are an int64 of nanoseconds, and without
  -- one where it does not; it has no identifier of the request.
  pub attempt_result-error_body :
      (wanted : Bool) (status : ℕ) (code message : String) (retry_after : Option ℤ)
      → IsDuration retry_after
      → IsReadable json times chars (error_body code message)
      → (leb 200 status && ltb status 300) ≡ false
      → attempt_result (codec json times read out status_text until) wanted (
          some (
            on_wire json times chars retry_after
              (record { status = status; body = error_body code message })))
        ≡ err (
            api (record {
              code = or_else code (code_for_status status);
              message = or_else message (status_text status);
              http_status = status;
              request_id = "";
              platform = "";
              retry_after = elim retry_after [
                | none ↦ none
                | some seconds ↦ some (scale_seconds seconds)
              ];
              detail = null;
            }))
  unfolding attempt_result handle_response response_error on_wire decode body_json read_error_body
      fields_of
  attempt_result-error_body wanted status code message retry_after fits readable h =
      let reads = readable (struct (("code", text code) ∷ ("message", text message) ∷ [])) refl in
      rw h (
        rw (response_error, on_wire, reads, parse_retry_after-retry_text until retry_after fits)
          refl)
