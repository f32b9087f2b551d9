-- ===== src/Worker/Deliver/Settled.antt =====
-- internal/worker/webhook.go: webhookDeliverHandler.ProcessTask where every request is answered.
use socialpublish.Prelude.{
  ℕ, suc, ◌≤◌, String, Bool, true, false, not, Bool-cases, Option, some, List, [], ◌∷◌, All,
  if◌then◌else◌, Bytes, ok, pos, ◌≡◌, refl, ap, ◌∙◌, inl, inr, arith,
}
use socialpublish.Store.Types.{WebhookEndpoint, WebhookDelivery, TokenRow}
use socialpublish.Store.Database.{World, Env, IsUp, Error, S, ◌>>=◌, pure, on_result}
use socialpublish.Store.Tokens.{Crypto, decrypt}
use socialpublish.Store.Webhooks.{list_pending_deliveries}
use socialpublish.Worker.Deliver.{
  Client, HttpRequest, make_request, deliver_one, deliver_each, deliver_pending, serve_endpoint,
  serve_endpoints,
}
use socialpublish.Worker.Deliver.Laws.{deliver_one-responded}
use socialpublish.Worker.Deliver.Delivered.{
  Settles, waiting, marked, Settles-marked, Settles-kept, waiting-marked,
}
use socialpublish.Worker.Deliver.Listed.{
  ids_of, listing, Settles-listing, list_pending_deliveries-listing,
}

-- The tokens stay, and no endpoint has more deliveries to wait for.
pub record IsNext (w v : World) : Type 0 where
  pub tokens : v.tokens ≡ w.tokens
  pub kept :
      (e : String) (ids : List String) → Settles e ids w.deliveries → Settles e ids v.deliveries
  pub fewer : (e : String) → waiting e v.deliveries ≤ waiting e w.deliveries

IsNext-refl : (w v : World) → v.tokens ≡ w.tokens → v.deliveries ≡ w.deliveries → IsNext w v
IsNext-refl w v t d = record {
  tokens = t;
  kept = λ e ids h. rw (d) h;
  fewer = λ e. rw (d) (omega arith);
}

IsNext-trans : (w v u : World) → IsNext w v → IsNext v u → IsNext w u
IsNext-trans w v u a b = record {
  tokens = b.tokens ∙ a.tokens;
  kept = λ e ids h. b.kept e ids (a.kept e ids h);
  fewer = λ e. omega (arith, a.fewer e, b.fewer e);
}

-- Every request can be built and is answered.
pub record IsAnswered (client : Client) : Type 0 where
  pub builds : (url : String) → client.builds url ≡ true
  pub answers : (n : ℕ) (req : HttpRequest) → (status : ℕ) × (client.send n req ≡ some status)

-- No delivery waits for the endpoint, if it is on.
abbrev pub IsServed : WebhookEndpoint → List WebhookDelivery → Type 0
IsServed ep ds = ep.enabled ≡ true → Settles ep.id [] ds

module _ (env : Env) (crypto : Crypto) (key : Bytes) where
  -- The secret of the endpoint can be decrypted from these tokens.
  unfoldable pub Opens : List TokenRow → WebhookEndpoint → Type 0
  Opens tokens ep =
      (v : World)
      → v.tokens ≡ tokens
      → (secret : Bytes) × (decrypt env crypto key ep.secret_enc v
          ≡ (ok secret, record v { calls = suc v.calls }))

  -- If the endpoint is on, its secret can be decrypted and at most 50 deliveries wait for it.
  unfoldable pub IsServable : List TokenRow → List WebhookDelivery → WebhookEndpoint → Type 0
  IsServable tokens ds ep = ep.enabled ≡ true → Opens tokens ep × (waiting ep.id ds ≤ 50)

module _ (env : Env) (client : Client) (up : IsUp env) (answered : IsAnswered client) where
  module _ (ep : WebhookEndpoint) (secret : Bytes) where
    one_marked :
        (d : WebhookDelivery) (last : Option Error) (w : World)
        → (status : ℕ) × ((deliver_one env client ep secret d last w).1 ≡ record w {
          deliveries = marked d.id (env.now (suc w.calls)) status w.deliveries;
          calls = suc (suc w.calls);
        })
    one_marked d last w =
        let (status, sent) =
          answered.answers w.calls (make_request env client ep secret d w.calls) in
        (
          status,
          deliver_one-responded env client ep secret d last w status up (answered.builds ep.url)
              sent,
        )

    one-IsNext :
        (d : WebhookDelivery) (last : Option Error) (w : World)
        → IsNext w (deliver_one env client ep secret d last w).1
          × ((e : String) (ids : List String)
              → Settles e (d.id ∷ ids) w.deliveries
              → Settles e ids ((deliver_one env client ep secret d last w).1).deliveries)
    one-IsNext d last w =
        let (status, same) = one_marked d last w in
        let now = env.now (suc w.calls) in
        rw (same) (
          record {
            tokens = refl;
            kept = λ e ids h. Settles-kept e d.id now status ids w.deliveries h;
            fewer = λ e. waiting-marked e d.id now status w.deliveries;
          },
          λ e ids h. Settles-marked e d.id now status ids w.deliveries h,
        )

    each-IsNext :
        (ds : List WebhookDelivery) (last : Option Error) (w : World)
        → IsNext w (deliver_each env client ep secret ds last w).1
          × ((e : String)
              → Settles e (ids_of ds) w.deliveries
              → Settles e [] ((deliver_each env client ep secret ds last w).1).deliveries)
    unfolding deliver_each ◌>>=◌
    each-IsNext [] last w = (IsNext-refl w w refl refl, λ e h. h)
    each-IsNext (d ∷ ds) last w =
        let (a, b) = one-IsNext d last w in
        let first = deliver_one env client ep secret d last w in
        let (c, f) = each-IsNext ds first.0 first.1 in
        (IsNext-trans w first.1 _ a c, λ e h. f e (b e (ids_of ds) h))

  module _ (crypto : Crypto) (key : Bytes) where
    pending-IsNext :
        (ep : WebhookEndpoint) (ds : List WebhookDelivery) (last : Option Error) (v : World)
        → Opens env crypto key v.tokens ep
        → IsNext v (deliver_pending env client crypto key ep ds last v).1
          × ((e : String)
              → Settles e (ids_of ds) v.deliveries
              → Settles e [] ((deliver_pending env client crypto key ep ds last v).1).deliveries)
    unfolding deliver_pending ◌>>=◌ Opens
    pending-IsNext ep [] last v opens = (IsNext-refl v v refl refl, λ e h. h)
    pending-IsNext ep (d ∷ ds) last v opens =
        let (secret, opened) = opens v refl in
        let next : World = record v { calls = suc v.calls } in
        let (a, b) = each-IsNext ep secret (d ∷ ds) last next in
        rw (opened) (IsNext-trans v next _ (IsNext-refl v next refl refl) a, b)

    abbrev served : WebhookEndpoint → Option Error → Bool → S (Option Error)
    served ep last enabled =
        if not enabled
        then pure last
        else (list_pending_deliveries env ep.id (pos 50) >>= λ pending.
            on_result pending (λ e. pure last)
              λ ds. deliver_pending env client crypto key ep ds last)

    serve_enabled :
        (ep : WebhookEndpoint) (last : Option Error) (w : World)
        → ep.enabled ≡ true
        → waiting ep.id w.deliveries ≤ 50
        → serve_endpoint env client crypto key ep last w
          ≡ deliver_pending env client crypto key ep
              (listing env ep.id w.deliveries)
              last
              (record w { calls = suc w.calls })
    unfolding serve_endpoint ◌>>=◌
    serve_enabled ep last w e few =
        ap (λ (b : Bool). served ep last b w) e
        ∙ rw (list_pending_deliveries-listing env ep.id w up few) refl

    serve_disabled :
        (ep : WebhookEndpoint) (last : Option Error) (w : World)
        → ep.enabled ≡ false
        → serve_endpoint env client crypto key ep last w ≡ (last, w)
    unfolding serve_endpoint ◌>>=◌
    serve_disabled ep last w e = ap (λ (b : Bool). served ep last b w) e

    serve-IsNext :
        (ep : WebhookEndpoint) (last : Option Error) (w : World)
        → IsServable env crypto key w.tokens w.deliveries ep
        → IsNext w (serve_endpoint env client crypto key ep last w).1
          × IsServed ep ((serve_endpoint env client crypto key ep last w).1).deliveries
    unfolding IsServable
    serve-IsNext ep last w ready = elim (Bool-cases ep.enabled) [
      | inl e ↦
          let (opens, few) = ready e in
          let next : World = record w { calls = suc w.calls } in
          let (a, b) = pending-IsNext ep (listing env ep.id w.deliveries) last next opens in
          rw (serve_enabled ep last w e few) (
            IsNext-trans w next _ (IsNext-refl w next refl refl) a,
            λ _. b ep.id (Settles-listing env ep.id w.deliveries),
          )
      | inr e ↦
          rw (serve_disabled ep last w e)
            (IsNext-refl w w refl refl, λ h. absurd (ground (arith, e, h)))
    ]

    IsServable-next :
        (w v : World) (eps : List WebhookEndpoint)
        → IsNext w v
        → All (IsServable env crypto key w.tokens w.deliveries) eps
        → All (IsServable env crypto key v.tokens v.deliveries) eps
    unfolding IsServable Opens
    IsServable-next w v [] n h = tt
    IsServable-next w v (ep ∷ eps) n (q, h) = (
      λ e.
          let (opens, few) = q e in
          (λ u same. opens u (same ∙ n.tokens), omega (arith, n.fewer ep.id)),
      IsServable-next w v eps n h,
    )

    pub serve_endpoints-IsNext :
        (eps : List WebhookEndpoint) (last : Option Error) (w : World)
        → All (IsServable env crypto key w.tokens w.deliveries) eps
        → IsNext w (serve_endpoints env client crypto key eps last w).1
          × All
              (λ (ep : WebhookEndpoint).
                IsServed ep ((serve_endpoints env client crypto key eps last w).1).deliveries)
              eps
    unfolding serve_endpoints ◌>>=◌
    serve_endpoints-IsNext [] last w h = (IsNext-refl w w refl refl, tt)
    serve_endpoints-IsNext (ep ∷ eps) last w (q, h) =
        let first = serve_endpoint env client crypto key ep last w in
        let (a, b) = serve-IsNext ep last w q in
        let (c, d) =
          serve_endpoints-IsNext eps first.0 first.1 (IsServable-next w first.1 eps a h) in
        (IsNext-trans w first.1 _ a c, (λ e. c.kept ep.id [] (b e), d))
