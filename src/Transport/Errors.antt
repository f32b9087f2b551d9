-- ===== src/Transport/Errors.antt =====
-- sdk/errors.go, and codeForStatus of sdk/transport.go.
use socialpublish.Prelude.{
  ℕ, String, Bool, ◌||◌, Option, List, [], ◌∷◌, leb, ◌==◌, str_eq, if◌then◌else◌, ℤ, map, ◌≡◌, ◌↔◌,
  ◌⊎◌, true, false, arith, str_eq_iff,
}
use socialpublish.Store.Json.{Json}
use Prim.Native.String.{◌++◌}

pub record ApiError : Type 0 where
  pub code : String
  pub message : String
  pub http_status : ℕ
  pub request_id : String
  pub platform : String
  pub retry_after : Option ℤ
  pub detail : Json

-- An error that the SDK returns. Only the first is an *Error.
pub data SdkError : Type 0 where
  api : ApiError → SdkError
  marshal_failed send_failed invalid_request drain_failed decode_failed : SdkError

unfoldable pub error_text : ApiError → String
error_text e =
    if str_eq e.platform ""
    then "[" ++ e.code ++ "] " ++ e.message ++ " (request_id=" ++ e.request_id ++ ")"
    else "[" ++ e.platform ++ "/" ++ e.code ++ "] " ++ e.message ++ " (request_id=" ++ e.request_id
      ++ ")"

-- errors.As(target, *Error), then the codes are compared.
unfoldable pub error_is : ApiError → SdkError → Bool
error_is e (api t) = str_eq e.code t.code
error_is e _ = false

unfoldable pub is_retryable : ApiError → Bool
is_retryable e = e.http_status == 429 || leb 500 e.http_status

abbrev pub code_unauthorized : String
code_unauthorized = "unauthorized"

abbrev pub code_forbidden : String
code_forbidden = "forbidden"

abbrev pub code_not_found : String
code_not_found = "not_found"

abbrev pub code_rate_limit : String
code_rate_limit = "rate_limit"

abbrev pub code_validation : String
code_validation = "validation_error"

abbrev pub code_internal : String
code_internal = "internal_error"

unfoldable pub code_for_status : ℕ → String
code_for_status status =
    if status == 401
    then code_unauthorized
    else if status == 403
    then code_forbidden
    else if status == 404
    then code_not_found
    else if status == 429
    then code_rate_limit
    else if status == 422
    then code_validation
    else if leb 500 status
    then code_internal
    else code_validation

pub record FieldError : Type 0 where
  pub field : String
  pub message : String

join_from : String → List String → String
join_from sep [] = ""
join_from sep (m ∷ ms) = sep ++ m ++ join_from sep ms

-- strings.Join.
join_texts : String → List String → String
unfolding join_from
join_texts sep [] = ""
join_texts sep (m ∷ ms) = m ++ join_from sep ms

unfoldable pub validation_text : List FieldError → String
unfolding join_texts
validation_text fields =
    "validation failed: " ++ join_texts "; " (map (λ f. f.field ++ ": " ++ f.message) fields)

-- An error built for a status is retryable exactly when its code is the one of rate limits or the
-- one of internal errors.
is_retryable_code :
    (e : ApiError)
    → (is_retryable e ≡ true) ↔ (
        (code_for_status e.http_status ≡ code_rate_limit)
        ⊎ (code_for_status e.http_status ≡ code_internal))
unfolding is_retryable code_for_status
is_retryable_code e = ground (
  arith,
  str_eq_iff code_unauthorized code_rate_limit,
  str_eq_iff code_forbidden code_rate_limit,
  str_eq_iff code_not_found code_rate_limit,
  str_eq_iff code_validation code_rate_limit,
  str_eq_iff code_unauthorized code_internal,
  str_eq_iff code_forbidden code_internal,
  str_eq_iff code_not_found code_internal,
  str_eq_iff code_validation code_internal,
)
