-- ===== src/Store/Webhooks.antt =====
-- internal/store/postgres.go: webhookStore.
use socialpublish.Prelude.{
  ℕ, ◌+◌, String, Bool, true, false, not, ◌&&◌, Option, none, some, List, [], ◌∷◌, ◌++◌, map, take,
  if◌then◌else◌, str_eq, Result, ok, err, select, ℤ, pos, negsuc, ◌==◌,
}
use socialpublish.Store.Json.{Json}
use socialpublish.Store.Types.{Workspace, WebhookEndpoint, WebhookDeliveryParams, WebhookDelivery}
use socialpublish.Store.Database.{
  Env, Error, failure, plain, S, call, query, wrapped, collect_rows, one_row, update_where,
  exists_row, order_desc, order_by_id, named,
}

abbrev pub endpoint_is : String → WebhookEndpoint → Bool
endpoint_is id e = str_eq e.id id

abbrev pub is_null : {A : Type 0} → Option A → Bool
is_null none = true
is_null (some a) = false

-- if limit <= 0 { limit = 10 }
delivery_limit : ℤ → ℕ
delivery_limit (pos n) = if n == 0 then 10 else n
delivery_limit (negsuc n) = 10

-- WHERE endpoint_id = … AND delivered_at IS NULL
abbrev pub is_pending : String → WebhookDelivery → Bool
is_pending endpoint_id d = str_eq d.endpoint_id endpoint_id && is_null d.delivered_at

module _ (env : Env) where
  unfoldable pub create_endpoint :
      (workspace_id url secret_hash secret_enc : String) (events : List String) (enabled : Bool)
      → S (Result Error WebhookEndpoint)
  create_endpoint workspace_id url secret_hash secret_enc events enabled = call env λ n w.
      let e : WebhookEndpoint = record {
        id = env.fresh n;
        workspace_id = workspace_id;
        url = url;
        secret_hash = secret_hash;
        secret_enc = secret_enc;
        events = events;
        enabled = enabled;
        created_at = env.now n;
      } in
      if exists_row (λ (ws : Workspace). str_eq ws.id workspace_id) w.workspaces
      then (ok e, record w { endpoints = w.endpoints ++ e ∷ [] })
      else (err failure, w)

  unfoldable pub list_endpoints : String → S (Result Error (List WebhookEndpoint))
  list_endpoints workspace_id = query env "list webhooks" λ n w. (
    collect_rows env n (
        order_desc (λ e. e.created_at)
          (select (λ (e : WebhookEndpoint). str_eq e.workspace_id workspace_id) w.endpoints)),
    w,
  )

  unfoldable pub get_endpoint : String → S (Result Error WebhookEndpoint)
  get_endpoint endpoint_id =
      query env "get webhook"
        λ n w. (wrapped "scan webhook" (one_row (endpoint_is endpoint_id) w.endpoints), w)

  -- The deliveries of the endpoint go with it.
  unfoldable pub delete_endpoint : String → S (Result Error (Unit {0}))
  delete_endpoint endpoint_id = query env (named "delete webhook " endpoint_id "") λ n w.
      if exists_row (endpoint_is endpoint_id) w.endpoints
      then (
        ok tt,
        record w {
          endpoints = select (λ e. not (endpoint_is endpoint_id e)) w.endpoints;
          deliveries =
              select (λ (d : WebhookDelivery). not (str_eq d.endpoint_id endpoint_id)) w.deliveries;
        },
      )
      else (err (plain (named "webhook " endpoint_id " not found")), w)

  -- A new row of webhook_deliveries.
  unfoldable pub new_delivery : (id endpoint_id event_type : String) → Json → WebhookDelivery
  new_delivery id endpoint_id event_type payload = record {
    id = id;
    endpoint_id = endpoint_id;
    event_type = event_type;
    payload = payload;
    response_status = none;
    attempt_count = 0;
    delivered_at = none;
    next_retry_at = none;
  }

  -- WHERE workspace_id = … AND enabled = true
  abbrev pub receives : String → WebhookEndpoint → Bool
  receives workspace_id e = str_eq e.workspace_id workspace_id && e.enabled

  -- One row for each endpoint that is selected; `env.row_id` names the rows of one statement.
  unfoldable pub enqueue_delivery : WebhookDeliveryParams → S (Result Error (Unit {0}))
  unfolding new_delivery
  enqueue_delivery params = query env "enqueue webhook delivery" λ n w. (
    ok tt,
    record w {
      deliveries =
          w.deliveries
          ++ map
              (λ (e : WebhookEndpoint).
                new_delivery (env.row_id n e.id) e.id params.event_type params.payload)
              (select (receives params.workspace_id) w.endpoints);
    },
  )

  unfoldable pub list_pending_deliveries :
      (endpoint_id : String) (limit : ℤ) → S (Result Error (List WebhookDelivery))
  unfolding delivery_limit
  list_pending_deliveries endpoint_id limit = query env "list pending deliveries" λ n w. (
    collect_rows env n (
        take (delivery_limit limit)
          (order_by_id env (λ d. d.id) (select (is_pending endpoint_id) w.deliveries))),
    w,
  )

  unfoldable pub mark_delivered : (delivery_id : String) (status : ℕ) → S (Result Error (Unit {0}))
  mark_delivered delivery_id status = query env (named "mark delivered " delivery_id "") λ n w. (
    ok tt,
    record w {
      deliveries =
          update_where (λ (d : WebhookDelivery). str_eq d.id delivery_id)
            (λ d. record d {
              delivered_at = some (env.now n);
              response_status = some status;
              attempt_count = d.attempt_count + 1;
            })
            w.deliveries;
    },
  )
