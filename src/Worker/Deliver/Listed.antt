-- ===== src/Worker/Deliver/Listed.antt =====
-- internal/store/postgres.go: the pending deliveries that ListPendingDeliveries lists.
use socialpublish.Prelude.{
  ℕ, suc, ◌≤◌, String, true, false, Bool-cases, List, [], ◌∷◌, map, take, length, select,
  str_eq_iff, ok, pos, ◌≡◌, subst, refl, inl, inr, arith, zero, ap,
}
use socialpublish.Store.Types.{WebhookDelivery}
use socialpublish.Store.Database.{World, Env, IsUp, query, order_by_id, insert_by_id}
use socialpublish.Store.Database.Rows.{collect_rows-up}
use socialpublish.Store.Webhooks.{is_pending, list_pending_deliveries}
use socialpublish.Worker.Deliver.Delivered.{has, Settles, waiting}

take-all {ℓ} : {A : Type ℓ} (n : ℕ) (xs : List A) → length xs ≤ n → take n xs ≡ xs
take-all zero [] h = refl
take-all zero (x ∷ xs) h = absurd (omega arith)
take-all (suc n) [] h = refl
take-all (suc n) (x ∷ xs) h = ap (λ l. x ∷ l) (take-all n xs (omega arith))

abbrev pub ids_of : List WebhookDelivery → List String
ids_of = map (λ (d : WebhookDelivery). d.id)

module _ (env : Env) where
  length-insert_by_id :
      (x : WebhookDelivery) (xs : List WebhookDelivery)
      → length (insert_by_id env (λ d. d.id) x xs) ≡ suc (length xs)
  unfolding insert_by_id
  length-insert_by_id x [] = refl
  length-insert_by_id x (y ∷ ys) = ground (arith, length-insert_by_id x ys)

  length-order_by_id :
      (xs : List WebhookDelivery) → length (order_by_id env (λ d. d.id) xs) ≡ length xs
  unfolding order_by_id
  length-order_by_id [] = refl
  length-order_by_id (x ∷ xs) =
      ground (arith, length-insert_by_id x (order_by_id env (λ d. d.id) xs), length-order_by_id xs)

  has-inserted :
      (x : WebhookDelivery) (xs : List WebhookDelivery)
      → has x.id (ids_of (insert_by_id env (λ d. d.id) x xs)) ≡ true
  unfolding has insert_by_id
  has-inserted x [] = ground (arith, str_eq_iff x.id x.id)
  has-inserted x (y ∷ ys) = ground (arith, str_eq_iff x.id x.id, has-inserted x ys)

  has-insert_by_id :
      (id : String) (x : WebhookDelivery) (xs : List WebhookDelivery)
      → has id (ids_of xs) ≡ true
      → has id (ids_of (insert_by_id env (λ d. d.id) x xs)) ≡ true
  unfolding has insert_by_id
  has-insert_by_id id x [] h = absurd (cc)
  has-insert_by_id id x (y ∷ ys) h = ground (arith, has-insert_by_id id x ys)

  module _ (endpoint_id : String) where
    abbrev pub listing : List WebhookDelivery → List WebhookDelivery
    listing ds = order_by_id env (λ d. d.id) (select (is_pending endpoint_id) ds)

    Settles-weaken :
        (x : WebhookDelivery) (xs ds : List WebhookDelivery)
        → Settles endpoint_id (ids_of xs) ds
        → Settles endpoint_id (ids_of (insert_by_id env (λ d. d.id) x xs)) ds
    Settles-weaken x xs [] h = tt
    Settles-weaken x xs (d ∷ ds) (q, h) =
        (ground (arith, has-insert_by_id d.id x xs), Settles-weaken x xs ds h)

    listing-pending :
        (d : WebhookDelivery) (ds : List WebhookDelivery)
        → is_pending endpoint_id d ≡ true
        → insert_by_id env (λ x. x.id) d (listing ds) ≡ listing (d ∷ ds)
    unfolding select order_by_id
    listing-pending d ds e = rw (e) refl

    listing-delivered :
        (d : WebhookDelivery) (ds : List WebhookDelivery)
        → is_pending endpoint_id d ≡ false
        → listing ds ≡ listing (d ∷ ds)
    unfolding select order_by_id
    listing-delivered d ds e = rw (e) refl

    pub Settles-listing : (ds : List WebhookDelivery) → Settles endpoint_id (ids_of (listing ds)) ds
    Settles-listing [] = tt
    Settles-listing (d ∷ ds) = elim (Bool-cases (is_pending endpoint_id d)) [
      | inl e ↦
          subst (λ (l : List WebhookDelivery). Settles endpoint_id (ids_of l) (d ∷ ds))
            (listing-pending d ds e)
            (
              ground (arith, has-inserted d (listing ds)),
              Settles-weaken d (listing ds) ds (Settles-listing ds),
            )
      | inr e ↦
          subst (λ (l : List WebhookDelivery). Settles endpoint_id (ids_of l) (d ∷ ds))
            (listing-delivered d ds e) (rw (e) refl, Settles-listing ds)
    ]

    pub list_pending_deliveries-listing :
        (w : World)
        → IsUp env
        → waiting endpoint_id w.deliveries ≤ 50
        → list_pending_deliveries env endpoint_id (pos 50) w
          ≡ (ok (listing w.deliveries), record w { calls = suc w.calls })
    unfolding list_pending_deliveries query
    list_pending_deliveries-listing w up few =
        let whole =
          take-all 50 (listing w.deliveries)
            (ground (arith, length-order_by_id (select (is_pending endpoint_id) w.deliveries))) in
        rw (up.answers w.calls, whole, collect_rows-up up w.calls (listing w.deliveries)) refl
