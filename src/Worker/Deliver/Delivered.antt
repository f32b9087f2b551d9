-- ===== src/Worker/Deliver/Delivered.antt =====
-- internal/worker/webhook.go: the task leaves no delivery behind where every request is answered.
use socialpublish.Prelude.{
  ℕ, ◌+◌, ◌≤◌, String, Bool, true, false, not, ◌&&◌, some, List, [], ◌∷◌, length, select, All,
  str_eq, if◌then◌else◌, ◌≡◌, arith,
}
use socialpublish.Store.Types.{WebhookDelivery, Time}
use socialpublish.Store.Database.{update_where}
use socialpublish.Store.Webhooks.{is_pending}

-- Whether a text is among others.
unfoldable pub has : String → List String → Bool
has x [] = false
has x (y ∷ ys) = let rest = has x ys in if str_eq x y then true else rest

-- What MarkDelivered does to the rows.
abbrev pub marked :
    (id : String) (now : Time) (status : ℕ) → List WebhookDelivery → List WebhookDelivery
marked id now status =
    update_where (λ (x : WebhookDelivery). str_eq x.id id)
      (λ x. record x {
        delivered_at = some now;
        response_status = some status;
        attempt_count = x.attempt_count + 1;
      })

module _ (endpoint_id : String) where
  -- The deliveries that wait for the endpoint are among those of the identifiers.
  abbrev pub Settles : List String → List WebhookDelivery → Type 0
  Settles ids =
      All (λ (d : WebhookDelivery). (is_pending endpoint_id d && not (has d.id ids)) ≡ false)

  abbrev pub waiting : List WebhookDelivery → ℕ
  waiting ds = length (select (is_pending endpoint_id) ds)

  pub Settles-marked :
      (id : String) (now : Time) (status : ℕ) (ids : List String) (ds : List WebhookDelivery)
      → Settles (id ∷ ids) ds
      → Settles ids (marked id now status ds)
  unfolding update_where has
  Settles-marked id now status ids [] h = tt
  Settles-marked id now status ids (d ∷ ds) (q, h) =
      (ground arith, Settles-marked id now status ids ds h)

  pub Settles-kept :
      (id : String) (now : Time) (status : ℕ) (ids : List String) (ds : List WebhookDelivery)
      → Settles ids ds
      → Settles ids (marked id now status ds)
  unfolding update_where
  Settles-kept id now status ids [] h = tt
  Settles-kept id now status ids (d ∷ ds) (q, h) =
      (ground arith, Settles-kept id now status ids ds h)

  pub waiting-marked :
      (id : String) (now : Time) (status : ℕ) (ds : List WebhookDelivery)
      → waiting (marked id now status ds) ≤ waiting ds
  unfolding update_where select
  waiting-marked id now status [] = omega arith
  waiting-marked id now status (d ∷ ds) = ground (arith, waiting-marked id now status ds)
