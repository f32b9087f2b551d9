-- ===== src/Worker/Deliver/Laws.antt =====
-- internal/worker/webhook.go: what one attempt to deliver does to the delivery.
use socialpublish.Prelude.{
  ℕ, suc, ◌+◌, true, false, Option, some, Bytes, ok, pos, ◌≡◌, ◌≢◌, [], refl, str_eq, ℤ,
}
use socialpublish.Store.Types.{WebhookEndpoint, WebhookDelivery}
use socialpublish.Store.Database.{World, Env, IsUp, Error, ◌>>=◌, outside, query, update_where}
use socialpublish.Store.Webhooks.{mark_delivered}
use socialpublish.Webhook.Signature.{verify_webhook_signature, unix, from_unix, is_zero}
use socialpublish.Webhook.Signature.Verified.{IsFresh, verify-sign}
use socialpublish.GoText.Decimal.{InInt64}
use socialpublish.Worker.Deliver.{Client, make_request, deliver_one, after_send}

module _ (env : Env) (client : Client) (ep : WebhookEndpoint) (secret : Bytes)
    (d : WebhookDelivery) where
  -- If the request can be built, the database answers and the endpoint sends a response, of
  -- whatever status: the delivery is marked as delivered with that status and its attempts are
  -- counted, all else staying as it is.
  pub deliver_one-responded :
      (last : Option Error) (w : World) (status : ℕ)
      → IsUp env
      → client.builds ep.url ≡ true
      → client.send w.calls (make_request env client ep secret d w.calls) ≡ some status
      → (deliver_one env client ep secret d last w).1 ≡ record w {
        deliveries =
            update_where
              (λ (x : WebhookDelivery). str_eq x.id d.id)
              (λ x. record x {
                delivered_at = some (env.now (suc w.calls));
                response_status = some status;
                attempt_count = x.attempt_count + 1;
              })
              w.deliveries;
        calls = suc (suc w.calls);
      }
  unfolding deliver_one after_send mark_delivered ◌>>=◌ outside query
  deliver_one-responded last w status up builds sent =
      rw (builds, sent, up.answers (suc w.calls)) refl

  -- For a MAC that is never empty and a secret that is not empty: the signature that the worker sends
  -- is accepted by the SDK under that secret for the body that is sent, if the clock of the worker is
  -- past the first second of the epoch and its seconds fit an int64, and the receiver's clock is
  -- within the tolerance.
  make_request-verified :
      ((key text : Bytes) → client.hmac key text ≢ [])
      → (n : ℕ) (now tolerance : ℤ) → secret ≢ []
      → InInt64 (unix (pos (env.now n)))
      → is_zero (unix (pos (env.now n))) ≡ false
      → IsFresh now (from_unix (unix (pos (env.now n)))) tolerance
      → verify_webhook_signature client.hmac secret
          (make_request env client ep secret d n).signature
          (make_request env client ep secret d n).body
          now
          tolerance
        ≡ ok tt
  unfolding make_request
  make_request-verified mac_nonempty n now tolerance s r z f =
      verify-sign client.hmac mac_nonempty secret _ (pos (env.now n)) now tolerance s r z f
