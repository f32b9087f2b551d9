-- ===== src/Worker/Deliver/Liveness.antt =====
-- internal/worker/webhook.go: what the whole task of a workspace leaves behind.
use socialpublish.Prelude.{
  ℕ, suc, String, Bool, true, false, Bool-cases, some, List, [], ◌∷◌, select, All, str_eq, Bytes,
  ◌≡◌, refl, inl, inr, arith, leb, none,
}
use socialpublish.Store.Types.{WebhookEndpoint, WebhookDelivery}
use socialpublish.Store.Database.{World, Env, IsUp, ◌>>=◌, query, insert_desc, order_desc}
use socialpublish.Store.Database.Rows.{collect_rows-up, All-order_desc}
use socialpublish.Store.Tokens.{Crypto}
use socialpublish.Store.Webhooks.{is_pending, list_endpoints}
use socialpublish.Worker.Deliver.{Client, serve_endpoints, process_deliver}
use socialpublish.Worker.Deliver.Delivered.{Settles, has}
use socialpublish.Worker.Deliver.Settled.{IsAnswered, IsServable, IsServed, serve_endpoints-IsNext}

module _ {A : Type 0} (P : A → Type 0) (q : A → Bool) (key : A → ℕ) where
  All-select-if : (xs : List A) → All (λ x. q x ≡ true → P x) xs → All P (select q xs)
  unfolding select
  All-select-if [] h = tt
  All-select-if (x ∷ xs) (p, h) = elim (Bool-cases (q x)) [
    | inl e ↦ rw (e) (p e, All-select-if xs h)
    | inr e ↦ rw (e) (All-select-if xs h)
  ]

  All-uninsert : (x : A) (ys : List A) → All P (insert_desc key x ys) → P x × All P ys
  unfolding insert_desc
  All-uninsert x [] (p, h) = (p, tt)
  All-uninsert x (y ∷ ys) h = elim (Bool-cases (leb (key y) (key x))) [
    | inl e ↦ rw (e) at h
    | inr e ↦ let (p, t) = rw (e) at h in let (r, s) = All-uninsert x ys t in (r, (p, s))
  ]

  All-unordered : (xs : List A) → All P (order_desc key xs) → All P xs
  unfolding order_desc
  All-unordered [] h = tt
  All-unordered (x ∷ xs) h =
      let (p, t) = All-uninsert x (order_desc key xs) h in (p, All-unordered xs t)

  All-unselected : (xs : List A) → All P (select q xs) → All (λ x. q x ≡ true → P x) xs
  unfolding select
  All-unselected [] h = tt
  All-unselected (x ∷ xs) h = elim (Bool-cases (q x)) [
    | inl e ↦ let (p, t) = rw (e) at h in (λ _. p, All-unselected xs t)
    | inr e ↦ (λ f. absurd (ground (arith, e, f)), All-unselected xs (rw (e) at h))
  ]

-- No delivery waits for the endpoint, if it is on.
pub IsDelivered : List WebhookDelivery → WebhookEndpoint → Type 0
IsDelivered ds ep = ep.enabled ≡ true → All (λ (d : WebhookDelivery). is_pending ep.id d ≡ false) ds

settled :
    (e : String) (ds : List WebhookDelivery)
    → Settles e [] ds
    → All (λ (d : WebhookDelivery). is_pending e d ≡ false) ds
unfolding has
settled e [] h = tt
settled e (d ∷ ds) (q, h) = (ground arith, settled e ds h)

All-IsDelivered :
    (ds : List WebhookDelivery) (eps : List WebhookEndpoint)
    → All (λ (ep : WebhookEndpoint). IsServed ep ds) eps
    → All (IsDelivered ds) eps
unfolding IsDelivered
All-IsDelivered ds [] h = tt
All-IsDelivered ds (ep ∷ eps) (q, h) = (λ e. settled ep.id ds (q e), All-IsDelivered ds eps h)

listed_first :
    (env : Env) (client : Client) (crypto : Crypto) (key : Bytes) (workspace_id : String)
    (w : World)
    → IsUp env
    → (process_deliver env client crypto key (some workspace_id) w).1
      ≡ (serve_endpoints env client crypto key
          (order_desc
            (λ ep. ep.created_at)
            (select (λ (ep : WebhookEndpoint). str_eq ep.workspace_id workspace_id) w.endpoints))
          none
          (record w { calls = suc w.calls })).1
unfolding process_deliver ◌>>=◌ list_endpoints query
listed_first env client crypto key workspace_id w up =
    rw
      (
        up.answers w.calls,
        collect_rows-up up w.calls (
            order_desc (λ ep. ep.created_at)
              (select (λ (ep : WebhookEndpoint). str_eq ep.workspace_id workspace_id) w.endpoints)),
      )
      refl

-- With everything up and every request built and answered: if each endpoint of the workspace that is
-- on has a secret that can be decrypted and at most 50 deliveries to wait for, then no delivery waits
-- for any of them after one run of the task.
pub process_deliver-IsDelivered :
    (env : Env) (client : Client) (crypto : Crypto) (key : Bytes) (workspace_id : String)
    (w : World)
    → IsUp env
    → IsAnswered client
    → All
        (λ (ep : WebhookEndpoint).
          str_eq ep.workspace_id workspace_id ≡ true
          → IsServable env crypto key w.tokens w.deliveries ep)
        w.endpoints
    → All
        (λ (ep : WebhookEndpoint).
          str_eq ep.workspace_id workspace_id ≡ true
          → IsDelivered
              ((process_deliver env client crypto key (some workspace_id) w).1).deliveries
              ep)
        w.endpoints
process_deliver-IsDelivered env client crypto key workspace_id w up answered ready =
    let of_workspace : WebhookEndpoint → Bool = λ ep. str_eq ep.workspace_id workspace_id in
    let age : WebhookEndpoint → ℕ = λ ep. ep.created_at in
    let mine = select of_workspace w.endpoints in
    let next : World = record w { calls = suc w.calls } in
    let servable =
      All-order_desc (IsServable env crypto key w.tokens w.deliveries) age mine
        (All-select-if _ of_workspace age w.endpoints ready) in
    let (_, done) =
      serve_endpoints-IsNext env client up answered crypto key (order_desc age mine) none next
        servable in
    let final = All-IsDelivered _ (order_desc age mine) done in
    rw (listed_first env client crypto key workspace_id w up)
      (All-unselected _ of_workspace age w.endpoints (All-unordered _ of_workspace age mine final))
