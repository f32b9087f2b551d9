-- ===== src/Sdk/Wired.antt =====
-- sdk/client.go: the services of a client over its transport, DoJSON of sdk/transport.go, for bodies
-- and answers of all types. The encoder of bodies and the decoders of answers are parameters.
use socialpublish.Prelude.{ℕ, Bool, true, false, Option, none, some, Bytes, Result, ok, err}
use socialpublish.Transport.Errors.{SdkError, marshal_failed}
use socialpublish.Transport.Backoff.{Float}
use socialpublish.Transport.Client.{Config}
use socialpublish.Transport.Request.{HttpRequest, UrlLibrary, RequestError, new_request}
use socialpublish.Transport.Retry.{Codec, Response, RetryConfig, do_json}
use socialpublish.Sdk.Request.{Doer}

-- The settings of the client that the loop reads.
abbrev retry_config : Config → RetryConfig
retry_config cfg = record {
  max_retries = cfg.max_retries;
  retry_wait_min = cfg.retry_wait_min;
  retry_wait_max = cfg.retry_wait_max;
}

-- json.Marshal of the body; without a body there is no payload.
abbrev payload_of : {B : Type 0} → (B → Option Bytes) → Option B → Result SdkError (Option Bytes)
payload_of marshal none = ok none
payload_of marshal (some b) = elim (marshal b) [ none ↦ err marshal_failed | some p ↦ ok (some p) ]

-- `wanted` says of which types an answer is decoded: not of the unit type, which stands for nil.
module _ {U : Type 0} (urls : UrlLibrary U) (cfg : Config) (float : Float)
    (marshal : (B : Type 0) → B → Option Bytes) (codec : (A : Type 0) → Codec A)
    (wanted : (Out : Type 0) → Bool) (send : HttpRequest → ℕ → Option Response) where
  -- The loop with the request that was built, and what it leaves in `out`.
  sent_json : {Out : Type 0} → Result RequestError HttpRequest → Out → Result SdkError Out
  sent_json {Out = Out} (err e) out =
      elim (do_json (codec Out) float (retry_config cfg) (wanted Out) (λ n. none) false).result [
        | err e' ↦ err e'
        | ok none ↦ ok out
        | ok (some a) ↦ ok a
      ]
  sent_json {Out = Out} (ok req) out =
      elim (do_json (codec Out) float (retry_config cfg) (wanted Out) (send req) true).result [
        | err e' ↦ err e'
        | ok none ↦ ok out
        | ok (some a) ↦ ok a
      ]

  unfoldable pub doer : (B Out : Type 0) → Doer SdkError B Out
  unfolding sent_json
  doer B Out method path query body out = elim (payload_of (marshal B) body) [
    | err e ↦ err e
    | ok payload ↦ sent_json (new_request urls cfg method path query payload) out
  ]
