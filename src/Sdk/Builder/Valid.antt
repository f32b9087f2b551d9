-- ===== src/Sdk/Builder/Valid.antt =====
-- What a request is that Build gives, whatever the calls of sdk/services/post/builder.go before.
use socialpublish.Prelude.{
  false, Option-cases, none, List, [], ◌∷◌, All, ok, ◌≡◌, ◌≢◌, ◌⊎◌, inl, inr, arith,
}
use socialpublish.Store.Types.{Time}
use socialpublish.Sdk.Post.{CreateRequest}
use socialpublish.Sdk.Builder.{Memory, new_post, build}
use socialpublish.Sdk.Builder.Calls.{Call, perform, run}
use socialpublish.Sdk.Builder.Sound.{IsTarget, IsFrom, IsLater, IsSound, is-[], perform-IsSound}

module _ (start : Time) where
  pub IsValid : CreateRequest → Type 0
  IsValid r =
      (r.media_ids ≢ [])
      × (r.targets ≢ [])
      × All IsTarget r.targets
      × IsLater start r.scheduled_at
      × ((r.scheduled_at ≡ none) ⊎ (r.publish_immediately ≡ false))

  run-IsSound :
      (cs : List Call) (m : Memory)
      → All (IsFrom start) cs
      → IsSound start m
      → IsSound start (run cs m)
  unfolding run
  run-IsSound [] m from sound = sound
  run-IsSound (c ∷ cs) m (f, from) sound =
      run-IsSound cs (perform c m) from (perform-IsSound start c m f sound)

  new_post-IsSound : IsSound start new_post
  unfolding new_post IsLater
  new_post-IsSound h = record {
    instagram = λ p b e. cc;
    youtube = λ p b e. cc;
    targets = tt;
    later = tt;
  }

  build-IsSound : (m : Memory) (r : CreateRequest) → IsSound start m → build m ≡ ok r → IsValid r
  unfolding build IsValid
  build-IsSound m r sound built = elim (is-[] m.builder.errors) [
    | inl (e, es, f) ↦ absurd (ground (arith, f))
    | inr f ↦
        let ready = sound f in
        let same : (r ≡ m.builder.req)
            × (m.builder.req.media_ids ≢ [])
            × (m.builder.req.targets ≢ [])
            × ((m.builder.req.scheduled_at ≡ none) ⊎ (m.builder.req.publish_immediately ≡ false)) =
          ground (arith, f, Option-cases m.builder.req.scheduled_at) in
        rw (same.0) (same.1, same.2, ready.targets, ready.later, same.3)
  ]

  -- A request that Build gives after any calls whose clock has reached `start` has media and
  -- targets, each with an account and the one configuration of its platform; it is not both
  -- scheduled and published at once, and it is scheduled at least a minute after `start`.
  pub build-IsValid :
      (cs : List Call) (r : CreateRequest)
      → All (IsFrom start) cs
      → build (run cs new_post) ≡ ok r
      → IsValid r
  build-IsValid cs r from built =
      build-IsSound (run cs new_post) r (run-IsSound cs new_post from new_post-IsSound) built
