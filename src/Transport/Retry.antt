-- ===== src/Transport/Retry.antt =====
-- sdk/transport.go: transport.DoJSON and transport.handleResponse. What the network does is the
-- argument `send`, the response to each attempt, `none` if sending fails; the JSON decoders, http.StatusText and
-- http.ParseTime are parameters, and so is the type of the decoded results.
pub mod Laws
use socialpublish.Prelude.{
  ℕ, zero, suc, ◌+◌, ◌^◌, String, Bool, true, false, not, ◌&&◌, ◌||◌, Option, none, some, List, [],
  ◌∷◌, Bytes, ltb, leb, ◌==◌, str_eq, if◌then◌else◌, ℤ, pos, negsuc, Result, ok, err,
}
use socialpublish.Store.Json.{Json, null}
use socialpublish.Transport.Errors.{
  ApiError, SdkError, api, send_failed, invalid_request, drain_failed, decode_failed, is_retryable,
  code_for_status,
}
use socialpublish.Transport.Backoff.{Float, sleep_time, parse_retry_after}

-- What is read of a response; the body is `none` if reading it fails.
pub record Response : Type 0 where
  pub status : ℕ
  pub request_id : String
  pub retry_after : Bytes
  pub body : Option Bytes

-- The body of an error response.
pub record ErrorBody : Type 0 where
  pub code : String
  pub message : String
  pub platform : String
  pub detail : Json

pub record Codec (A : Type 0) : Type 0 where
  pub decode : Bytes → Option A
  pub decode_error : Bytes → Option ErrorBody
  pub status_text : ℕ → String
  pub until : Bytes → Option ℤ

pub record RetryConfig : Type 0 where
  pub max_retries : ℤ
  pub retry_wait_min : ℤ
  pub retry_wait_max : ℤ

-- What a call of DoJSON did: its result (`none` if nothing was decoded), the number of requests
-- that it sent and the durations that it slept.
pub record Run (A : Type 0) : Type 0 where
  pub result : Result SdkError (Option A)
  pub sends : ℕ
  pub sleeps : List ℤ

-- maxRetries + 1 in an int64; a range over a negative number makes no round.
unfoldable pub attempts_of : ℤ → ℕ
attempts_of (pos n) = if ltb (suc n) (2 ^ 63) then suc n else 0
attempts_of (negsuc n) = 0

abbrev read_body : {A : Type 0} → Option Bytes → (Bytes → Option A) → Option A
read_body none f = none
read_body (some b) f = f b

abbrev pub or_else : String → String → String
or_else text fallback = if str_eq text "" then fallback else text

module _ {A : Type 0} (codec : Codec A) where
  -- The error of a response outside 200 to 299.
  unfoldable pub response_error : Response → ApiError
  response_error resp =
      let e : ApiError = record {
        code = code_for_status resp.status;
        message = codec.status_text resp.status;
        http_status = resp.status;
        request_id = resp.request_id;
        platform = "";
        retry_after = parse_retry_after codec.until resp.retry_after;
        detail = null;
      } in
      elim (read_body resp.body codec.decode_error) [
        | none ↦ e
        | some b ↦ record e {
          code = or_else b.code e.code;
          message = or_else b.message e.message;
          platform = b.platform;
          detail = b.detail;
        }
      ]

  -- `wanted` says that the caller gave a place for the result.
  unfoldable pub handle_response : (wanted : Bool) → Response → Result SdkError (Option A)
  handle_response wanted resp =
      if leb 200 resp.status && ltb resp.status 300
      then (if not wanted || resp.status == 204
          then elim resp.body [ none ↦ err drain_failed | some _ ↦ ok none ]
          else elim (read_body resp.body codec.decode) [
            | none ↦ err decode_failed
            | some a ↦ ok (some a)
          ])
      else err (api (response_error resp))

  -- The result of one attempt alone.
  unfoldable pub attempt_result : (wanted : Bool) → Option Response → Result SdkError (Option A)
  attempt_result wanted none = err send_failed
  attempt_result wanted (some resp) = handle_response wanted resp

-- errors.As(err, &apiErr) and apiErr.IsRetryable(); a failed send is tried again as well.
unfoldable pub tries_again : SdkError → Bool
tries_again (api e) = is_retryable e
tries_again send_failed = true
tries_again _ = false

-- apiErr.RetryAfter, or nil behind a failed send.
unfoldable pub asked_wait : SdkError → Option ℤ
asked_wait (api e) = e.retry_after
asked_wait _ = none

module _ {A : Type 0} where
  -- One more request before `rest`, and the sleep between.
  unfoldable pub after_sleep : ℤ → Run A → Run A
  after_sleep wait rest = record {
    result = rest.result;
    sends = suc rest.sends;
    sleeps = wait ∷ rest.sleeps;
  }

  abbrev pub finish : Result SdkError (Option A) → Run A
  finish r = record { result = r; sends = 1; sleeps = [] }

  abbrev never_sent : Result SdkError (Option A) → Run A
  never_sent r = record { result = r; sends = 0; sleeps = [] }

module _ {A : Type 0} (codec : Codec A) (float : Float) (cfg : RetryConfig) (wanted : Bool)
    (send : ℕ → Option Response) where
  -- The loop, with the attempts that are left and the number of the next one.
  retry_loop : ℕ → ℕ → Run A
  retry_loop zero attempt = never_sent (ok none)
  retry_loop (suc left) attempt =
      let rest = retry_loop left (suc attempt) in
      elim (attempt_result codec wanted (send attempt)) [
        | ok a ↦ finish (ok a)
        | err e ↦
            if not (tries_again e) || left == 0
            then finish (err e)
            else after_sleep
                (sleep_time float cfg.retry_wait_min cfg.retry_wait_max attempt (asked_wait e)) rest
      ]

  -- A request that cannot be built ends the call; it is the same in every attempt.
  unfoldable pub do_json : (buildable : Bool) → Run A
  unfolding retry_loop after_sleep tries_again asked_wait
  do_json buildable =
      let n = attempts_of cfg.max_retries in
      if n == 0
      then never_sent (ok none)
      else if buildable
      then retry_loop n 0
      else never_sent (err invalid_request)
