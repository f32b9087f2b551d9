-- ===== src/Sdk/Builder/Chains.antt =====
-- How chains of the builder in sdk/services/post/builder.go act on what is read through pointers.
use socialpublish.Prelude.{
  ℕ, suc, ◌<◌, Option, none, some, List, [], ◌∷◌, ◌++◌, All, map, ◌≡◌, refl, ap, ◌∙◌, arith,
}
use mathlib.Core.Path.{fun_ext}
use mathlib.Core.List.{map-append}
use socialpublish.Sdk.Post.{platform_instagram, platform_youtube, Target}
use socialpublish.Sdk.Builder.{
  Memory, InstagramBuilder, YoutubeBuilder, StringMap, set_key, new_post, build, update,
  require_account,
}
use socialpublish.Sdk.Builder
use socialpublish.Sdk.Builder.Targets
use socialpublish.Sdk.Builder.Targets.{
  InstagramCall, YoutubeCall, configure_instagram, configure_youtube, on_instagram, on_youtube,
  instagram_target, youtube_target,
}
use socialpublish.Sdk.Builder.Calls.{instagram_calls, youtube_calls}
use socialpublish.Sdk.Builder.Plan.{
  view, read_target, read_request, configured_instagram, configured_youtube, read, add_target,
}

pub update-at {ℓ} : {A : Type ℓ} (f : ℕ → A) (p : ℕ) (v : A) → update f p v p ≡ v
unfolding update
update-at f p v = ground arith

update-update {ℓ} :
    {A : Type ℓ} (f : ℕ → A) (p : ℕ) (v w : A) → update (update f p v) p w ≡ update f p w
unfolding update
update-update f p v w = fun_ext λ q. ground arith

on_instagram-update :
    (p : ℕ) (c : InstagramCall) (m : Memory) (b : InstagramBuilder)
    → on_instagram p c (record m { instagram = update m.instagram p (some b) }) ≡ record m {
      instagram = update m.instagram p (some (record b { t = configure_instagram c b.t }));
    }
unfolding on_instagram
on_instagram-update p c m b =
    rw (on_instagram, update-at m.instagram p (some b), update-update m.instagram p (some b)) refl

on_youtube-update :
    (p : ℕ) (c : YoutubeCall) (m : Memory) (b : YoutubeBuilder)
    → on_youtube p c (record m { youtube = update m.youtube p (some b) })
      ≡ record m { youtube = update m.youtube p (some (record b { t = configure_youtube c b.t })) }
unfolding on_youtube
on_youtube-update p c m b =
    rw (on_youtube, update-at m.youtube p (some b), update-update m.youtube p (some b)) refl

-- The calls of one chain change the one configuration.
instagram_calls-update :
    (p : ℕ) (cs : List InstagramCall) (m : Memory) (b : InstagramBuilder)
    → instagram_calls p cs (record m { instagram = update m.instagram p (some b) }) ≡ record m {
      instagram = update m.instagram p (some (record b { t = configured_instagram cs b.t }));
    }
unfolding instagram_calls configured_instagram
instagram_calls-update p [] m b = refl
instagram_calls-update p (c ∷ cs) m b =
    ap (instagram_calls p cs) (on_instagram-update p c m b)
    ∙ instagram_calls-update p cs m (record b { t = configure_instagram c b.t })

youtube_calls-update :
    (p : ℕ) (cs : List YoutubeCall) (m : Memory) (b : YoutubeBuilder)
    → youtube_calls p cs (record m { youtube = update m.youtube p (some b) }) ≡ record m {
      youtube = update m.youtube p (some (record b { t = configured_youtube cs b.t }));
    }
unfolding youtube_calls configured_youtube
youtube_calls-update p [] m b = refl
youtube_calls-update p (c ∷ cs) m b =
    ap (youtube_calls p cs) (on_youtube-update p c m b)
    ∙ youtube_calls-update p cs m (record b { t = configure_youtube c b.t })

-- Addresses that a target holds were given before.
unfoldable pub Below : ℕ → Option ℕ → Type 0
Below n none = Unit
Below n (some p) = p < n

abbrev pub IsBelow : ℕ → Target → Type 0
IsBelow n t = Below n t.instagram × Below n t.youtube

Below-suc : (n : ℕ) (a : Option ℕ) → Below n a → Below (suc n) a
unfolding Below
Below-suc n none h = tt
Below-suc n (some p) h = omega arith

pub IsBelow-suc : (n : ℕ) (ts : List Target) → All (IsBelow n) ts → All (IsBelow (suc n)) ts
IsBelow-suc n [] h = tt
IsBelow-suc n (t ∷ ts) ((a, b), h) = ((Below-suc n _ a, Below-suc n _ b), IsBelow-suc n ts h)

-- What stands at the next address is not read by the targets before.
read-update {ℓ κ} :
    {A : Type ℓ} {B : Type κ} (f : A → B) (cells : ℕ → Option A) (n : ℕ) (v : Option A)
    (a : Option ℕ)
    → Below n a
    → read f (update cells n v) a ≡ read f cells a
unfolding read update Below
read-update f cells n v none h = refl
read-update f cells n v (some p) h = ground arith

-- The memory after such a chain.
pub done-instagram_calls :
    (p : ℕ) (cs : List InstagramCall) (m : Memory) (b : InstagramBuilder)
    → Targets.instagram_done p
        (instagram_calls p cs (record m { instagram = update m.instagram p (some b) }))
      ≡ Builder.on_request
          (λ r. record r {
            targets =
                r.targets ++ instagram_target p (record b { t = configured_instagram cs b.t }) ∷ [];
          })
          (record m {
            instagram = update m.instagram p (some (record b { t = configured_instagram cs b.t }));
          })
unfolding Targets.instagram_done
done-instagram_calls p cs m b =
    ap (Targets.instagram_done p) (instagram_calls-update p cs m b)
    ∙ rw
        (
          Targets.instagram_done,
          update-at m.instagram p (some (record b { t = configured_instagram cs b.t })),
        )
        refl

read-instagram :
    (m : Memory) (p : ℕ) (v : Option InstagramBuilder) (ts : List Target)
    → All (IsBelow p) ts
    → map (read_target (record m { instagram = update m.instagram p v })) ts
      ≡ map (read_target m) ts
unfolding read_target
read-instagram m p v [] h = refl
read-instagram m p v (t ∷ ts) ((a, b), h) =
    rw
      (
        read-update (λ (b : InstagramBuilder). b.t) m.instagram p v t.instagram a,
        read-instagram m p v ts h,
      )
      refl

-- What is read of it.
pub view-instagram_calls :
    (p : ℕ) (cs : List InstagramCall) (m : Memory) (b : InstagramBuilder)
    → All (IsBelow p) m.builder.req.targets
    → view (
        Targets.instagram_done p
          (instagram_calls p cs (record m { instagram = update m.instagram p (some b) })))
      ≡ add_target
          (record {
            account_id = b.account_id;
            platform = platform_instagram;
            instagram = some (configured_instagram cs b.t);
            youtube = none;
          })
          (view m)
unfolding view read_request read_target read
view-instagram_calls p cs m b h =
    rw
      (
        done-instagram_calls p cs m b,
        map-append,
        read-instagram m p (some (record b { t = configured_instagram cs b.t }))
            m.builder.req.targets h,
        update-at m.instagram p (some (record b { t = configured_instagram cs b.t })),
      )
      refl

-- The memory after such a chain.
pub done-youtube_calls :
    (p : ℕ) (cs : List YoutubeCall) (m : Memory) (b : YoutubeBuilder)
    → Targets.youtube_done p
        (youtube_calls p cs (record m { youtube = update m.youtube p (some b) }))
      ≡ Builder.on_request
          (λ r. record r {
            targets =
                r.targets ++ youtube_target p (record b { t = configured_youtube cs b.t }) ∷ [];
          })
          (record m {
            youtube = update m.youtube p (some (record b { t = configured_youtube cs b.t }));
          })
unfolding Targets.youtube_done
done-youtube_calls p cs m b =
    ap (Targets.youtube_done p) (youtube_calls-update p cs m b)
    ∙ rw
        (
          Targets.youtube_done,
          update-at m.youtube p (some (record b { t = configured_youtube cs b.t })),
        )
        refl

read-youtube :
    (m : Memory) (p : ℕ) (v : Option YoutubeBuilder) (ts : List Target)
    → All (IsBelow p) ts
    → map (read_target (record m { youtube = update m.youtube p v })) ts ≡ map (read_target m) ts
unfolding read_target
read-youtube m p v [] h = refl
read-youtube m p v (t ∷ ts) ((a, b), h) =
    rw
      (read-update (λ (b : YoutubeBuilder). b.t) m.youtube p v t.youtube b, read-youtube m p v ts h)
      refl

-- What is read of it.
pub view-youtube_calls :
    (p : ℕ) (cs : List YoutubeCall) (m : Memory) (b : YoutubeBuilder)
    → All (IsBelow p) m.builder.req.targets
    → view (
        Targets.youtube_done p
          (youtube_calls p cs (record m { youtube = update m.youtube p (some b) })))
      ≡ add_target
          (record {
            account_id = b.account_id;
            platform = platform_youtube;
            youtube = some (configured_youtube cs b.t);
            instagram = none;
          })
          (view m)
unfolding view read_request read_target read
view-youtube_calls p cs m b h =
    rw
      (
        done-youtube_calls p cs m b,
        map-append,
        read-youtube m p (some (record b { t = configured_youtube cs b.t })) m.builder.req.targets
            h,
        update-at m.youtube p (some (record b { t = configured_youtube cs b.t })),
      )
      refl
