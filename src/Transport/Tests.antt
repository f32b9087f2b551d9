-- ===== src/Transport/Tests.antt =====
-- Examples for sdk/transport.go and sdk/errors.go.
use socialpublish.Prelude.{
  ◌*◌, ◌^◌, ◌-◌, min, true, none, some, [], Bytes, ◌≡◌, refl, ℤ, pos, negsuc, arith,
}
use socialpublish.Transport.Backoff.{Float, IsExact, millisecond, backoff, backoff_doubles}
use socialpublish.Transport.Retry.{Response, Codec, RetryConfig, do_json}
use socialpublish.Transport.Retry.Laws.{IsRun, do_json-IsRun}
use socialpublish.Webhook.Signature.{second}

-- The results are bodies as they stand.
abbrev codec : Codec Bytes
codec = record {
  decode = λ b. some b;
  decode_error = λ b. none;
  status_text = λ n. "status";
  until = λ b. none;
}

-- Exact conversions; what is out of range becomes the lowest int64.
abbrev float : Float
float = record { to_float = λ n. n; out_of_range = negsuc (2 ^ 63 - 1) }

float-IsExact : IsExact float
float-IsExact = record { exact = λ n h. refl }

abbrev config : ℤ → RetryConfig
config retries = record {
  max_retries = retries;
  retry_wait_min = pos (500 * millisecond);
  retry_wait_max = pos (30 * second);
}

abbrev busy : Response
busy = record { status = 503; request_id = "r"; retry_after = []; body = none }

do_json-IsRun_example :
    IsRun codec float
      (config (pos 2))
      true
      (λ n. some busy)
      3
      0
      (do_json codec float (config (pos 2)) true (λ n. some busy) true)
do_json-IsRun_example =
    do_json-IsRun codec float (config (pos 2)) true (λ n. some busy) 2 (omega arith) refl

backoff_doubles_example :
    backoff float (pos (500 * millisecond)) (pos (30 * second)) 3
    ≡ pos (min ((500 * millisecond) * 2 ^ 3) (30 * second))
backoff_doubles_example =
    backoff_doubles float float-IsExact (500 * millisecond) (30 * second) 3 (omega arith)
      (omega arith) (omega arith) (omega arith)
