-- ===== src/Sdk/Builder/Sound.antt =====
-- What holds of the memory after any call of sdk/services/post/builder.go.
use socialpublish.Prelude.{
  ℕ, ◌+◌, ◌≤◌, String, true, Bool-cases, Option, Option-cases, none, some, List, [], ◌∷◌, ◌++◌, ltb,
  ◌==◌, All, All-append, str_eq, str_eq_iff, ◌≡◌, ◌≢◌, ◌⊎◌, inl, inr, refl, arith,
}
use socialpublish.Store.Types.{Time}
use socialpublish.Sdk.Post.{Target, platform_instagram, platform_youtube}
use socialpublish.Sdk.Builder.{
  Memory, InstagramBuilder, YoutubeBuilder, minimum_schedule_delay, update, new_post, build,
  is_some, require_account,
}
use socialpublish.Sdk.Builder
use socialpublish.Sdk.Builder.Targets
use socialpublish.Sdk.Builder.Targets.{InstagramCall, YoutubeCall, on_instagram, on_youtube}
use socialpublish.Sdk.Builder.Calls.{Call, perform}

pub IsTarget : Target → Type 0
IsTarget t =
    (t.account_id ≢ "")
    × (((t.platform ≡ platform_instagram) × (is_some t.instagram ≡ true) × (t.youtube ≡ none))
        ⊎ ((t.platform ≡ platform_youtube) × (is_some t.youtube ≡ true) × (t.instagram ≡ none)))

-- Every builder of a store was made for an account.
abbrev pub Names : {B : Type 0} → (B → String) → (ℕ → Option B) → Type 0
Names {B = B} account f = (p : ℕ) (b : B) → f p ≡ some b → account b ≢ ""

Names-update :
    {B : Type 0} (account : B → String) (f : ℕ → Option B) (p : ℕ) (b : B)
    → account b ≢ ""
    → Names account f
    → Names account (update f p (some b))
unfolding update
Names-update account f p b named names q c = elim (Bool-cases (p == q)) [
  | inl e ↦ rw (e) λ h. ground (arith, named)
  | inr e ↦ rw (e) λ h. names q c h
]

pub is-[] {ℓ} : {A : Type ℓ} (xs : List A) → ((x : A) × (ys : List A) × (xs ≡ x ∷ ys)) ⊎ (xs ≡ [])
is-[] [] = inr refl
is-[] (x ∷ xs) = inl (x, xs, refl)

append-[] {ℓ} : {A : Type ℓ} (xs : List A) (x : A) → (xs ++ x ∷ []) ≢ []
append-[] [] x h = cc
append-[] (y ∷ ys) x h = cc

module _ (start : Time) where
  -- The clock that the call reads has reached `start`.
  unfoldable pub IsFrom : Call → Type 0
  IsFrom (Call.schedule_at now t) = start ≤ now
  IsFrom _ = Unit

  unfoldable pub IsLater : Option Time → Type 0
  IsLater none = Unit
  IsLater (some t) = start + minimum_schedule_delay ≤ t

  -- What holds while no error is recorded, of the platform builders, the targets and the time.
  pub record IsReady (f : ℕ → Option InstagramBuilder) (g : ℕ → Option YoutubeBuilder)
      (ts : List Target) (t : Option Time) : Type 0 where
    pub instagram : Names (λ (b : InstagramBuilder). b.account_id) f
    pub youtube : Names (λ (b : YoutubeBuilder). b.account_id) g
    pub targets : All IsTarget ts
    pub later : IsLater t

  abbrev pub IsSound : Memory → Type 0
  IsSound m =
      m.builder.errors ≡ []
      → IsReady m.instagram m.youtube m.builder.req.targets m.builder.req.scheduled_at

  schedule_at-IsSound :
      (now t : Time) (m : Memory) → start ≤ now → IsSound m → IsSound (Builder.schedule_at now t m)
  unfolding Builder.schedule_at IsLater
  schedule_at-IsSound now t m from sound = elim (Bool-cases (t == 0)) [
    | inl e ↦ rw (e) λ h. absurd (append-[] _ _ h)
    | inr e ↦ elim (Bool-cases (ltb t (now + minimum_schedule_delay))) [
      | inl f ↦ rw (e, f) λ h. absurd (append-[] _ _ h)
      | inr f ↦
          let late : start + minimum_schedule_delay ≤ t = ground arith in
          rw (e, f)
            λ h.
              let r = sound h in
              record {
                instagram = r.instagram;
                youtube = r.youtube;
                targets = r.targets;
                later = late;
              }
    ]
  ]

  with_metadata-IsSound :
      (key value : String) (m : Memory) → IsSound m → IsSound (Builder.with_metadata key value m)
  unfolding Builder.with_metadata
  with_metadata-IsSound key value m sound = elim (Option-cases m.builder.req.metadata) [
    | inl e ↦ rw (e) sound
    | inr (p, e) ↦ rw (e) sound
  ]

  -- An account that is not named is an error, so that what follows may take it to be named.
  require_account-IsSound :
      (message account_id : String) (m : Memory)
      → (account_id ≢ "" → IsSound m)
      → IsSound (require_account message account_id m)
  unfolding require_account
  require_account-IsSound message account_id m sound = elim (Bool-cases (str_eq account_id "")) [
    | inl e ↦ rw (e) λ h. absurd (append-[] _ _ h)
    | inr e ↦
        let named : account_id ≢ "" = ground (arith, str_eq_iff account_id "") in
        rw (e) (sound named)
  ]

  on_instagram-IsSound :
      (p : ℕ) (call : InstagramCall) (m : Memory) → IsSound m → IsSound (on_instagram p call m)
  unfolding on_instagram
  on_instagram-IsSound p call m sound = elim (Option-cases (m.instagram p)) [
    | inl e ↦ rw (e, on_instagram) sound
    | inr (b, e) ↦
        rw (e, on_instagram)
          λ h.
            let r = sound h in
            record {
              instagram = Names-update _ m.instagram p _ (r.instagram p b e) r.instagram;
              youtube = r.youtube;
              targets = r.targets;
              later = r.later;
            }
  ]

  on_youtube-IsSound :
      (p : ℕ) (call : YoutubeCall) (m : Memory) → IsSound m → IsSound (on_youtube p call m)
  unfolding on_youtube
  on_youtube-IsSound p call m sound = elim (Option-cases (m.youtube p)) [
    | inl e ↦ rw (e, on_youtube) sound
    | inr (b, e) ↦
        rw (e, on_youtube)
          λ h.
            let r = sound h in
            record {
              instagram = r.instagram;
              youtube = Names-update _ m.youtube p _ (r.youtube p b e) r.youtube;
              targets = r.targets;
              later = r.later;
            }
  ]

  instagram_done-IsSound : (p : ℕ) (m : Memory) → IsSound m → IsSound (Targets.instagram_done p m)
  unfolding Targets.instagram_done IsTarget
  instagram_done-IsSound p m sound = elim (Option-cases (m.instagram p)) [
    | inl e ↦ rw (e, Targets.instagram_done) sound
    | inr (b, e) ↦
        rw (e, Targets.instagram_done)
          λ h.
            let r = sound h in
            record {
              instagram = r.instagram;
              youtube = r.youtube;
              targets =
                  All-append IsTarget _ _ r.targets
                    ((r.instagram p b e, inl (refl, refl, refl)), tt);
              later = r.later;
            }
  ]

  youtube_done-IsSound : (p : ℕ) (m : Memory) → IsSound m → IsSound (Targets.youtube_done p m)
  unfolding Targets.youtube_done IsTarget
  youtube_done-IsSound p m sound = elim (Option-cases (m.youtube p)) [
    | inl e ↦ rw (e, Targets.youtube_done) sound
    | inr (b, e) ↦
        rw (e, Targets.youtube_done)
          λ h.
            let r = sound h in
            record {
              instagram = r.instagram;
              youtube = r.youtube;
              targets =
                  All-append IsTarget _ _ r.targets ((r.youtube p b e, inr (refl, refl, refl)), tt);
              later = r.later;
            }
  ]

  pub perform-IsSound : (c : Call) (m : Memory) → IsFrom c → IsSound m → IsSound (perform c m)
  unfolding perform IsFrom Builder.with_media Builder.publish_now Builder.for_instagram
      Builder.for_youtube
  perform-IsSound (Call.with_media ids) m from sound = sound
  perform-IsSound (Call.schedule_at now t) m from sound = schedule_at-IsSound now t m from sound
  perform-IsSound Call.publish_now m from sound = sound
  perform-IsSound (Call.with_metadata key value) m from sound =
      with_metadata-IsSound key value m sound
  perform-IsSound (Call.for_instagram account_id) m from sound =
      require_account-IsSound _ account_id _ λ named h.
        let r = sound h in
        record {
          instagram = Names-update _ m.instagram m.next _ named r.instagram;
          youtube = r.youtube;
          targets = r.targets;
          later = r.later;
        }
  perform-IsSound (Call.for_youtube account_id) m from sound =
      require_account-IsSound _ account_id _ λ named h.
        let r = sound h in
        record {
          instagram = r.instagram;
          youtube = Names-update _ m.youtube m.next _ named r.youtube;
          targets = r.targets;
          later = r.later;
        }
  perform-IsSound (Call.instagram p call) m from sound = on_instagram-IsSound p call m sound
  perform-IsSound (Call.youtube p call) m from sound = on_youtube-IsSound p call m sound
  perform-IsSound (Call.instagram_done p) m from sound = instagram_done-IsSound p m sound
  perform-IsSound (Call.youtube_done p) m from sound = youtube_done-IsSound p m sound
