-- ===== src/Sdk/Builder/Refines.antt =====
-- The builder of sdk/services/post/builder.go against the plan: what Build gives after a sequence of
-- chains is, read through the pointers, what the plan of the same chains settles to.
use socialpublish.Prelude.{
  suc, String, Bool-cases, Option-cases, List, [], ◌∷◌, ltb, ◌+◌, ◌==◌, All, All-append, str_eq,
  Result, ok, err, ◌≡◌, refl, ap, ◌∙◌, is_empty, map, ◌&&◌, arith, inl, inr,
}
use socialpublish.Store.Types.{Time}
use socialpublish.Sdk.Builder.{
  Memory, InstagramBuilder, YoutubeBuilder, new_post, build, require_account, update, no_instagram,
  no_youtube, minimum_schedule_delay, set_key, is_some,
}
use socialpublish.Sdk.Builder
use socialpublish.Sdk.Builder.Calls.{Chain, follow, follow_all}
use socialpublish.Sdk.Builder.Sound.{is-[]}
use socialpublish.Sdk.Builder.Targets.{InstagramCall, YoutubeCall}
use socialpublish.Sdk.Builder.Plan.{
  Request, view, read_request, read_target, plan_step, plan, settle, no_plan,
}
use socialpublish.Sdk.Builder.Chains.{
  Below, IsBelow, IsBelow-suc, view-instagram_calls, view-youtube_calls, done-instagram_calls,
  done-youtube_calls, update-at,
}

-- The targets hold addresses that were given.
abbrev IsWell : Memory → Type 0
IsWell m = All (IsBelow m.next) m.builder.req.targets

view-schedule_at :
    (now t : Time) (m : Memory)
    → view (Builder.schedule_at now t m) ≡ plan_step (Chain.schedule_at now t) (view m)
unfolding view read_request read_target plan_step Builder.schedule_at
view-schedule_at now t m = elim (Bool-cases (t == 0)) [
  | inl e ↦ rw (e) refl
  | inr e ↦ elim (Bool-cases (ltb t (now + minimum_schedule_delay))) [
    | inl f ↦ rw (e, f) refl
    | inr f ↦ rw (e, f) refl
  ]
]

view-with_metadata :
    (key value : String) (m : Memory)
    → view (Builder.with_metadata key value m) ≡ plan_step (Chain.with_metadata key value) (view m)
unfolding view read_request read_target plan_step Builder.with_metadata
view-with_metadata key value m = elim (Option-cases m.builder.req.metadata) [
  | inl e ↦ rw (e, update-at) refl
  | inr (p, e) ↦ rw (e, update-at) refl
]

view-for_instagram :
    (account_id : String) (calls : List InstagramCall) (m : Memory)
    → IsWell m
    → view (follow (Chain.for_instagram account_id calls) m)
      ≡ plan_step (Chain.for_instagram account_id calls) (view m)
unfolding view follow read_request read_target plan_step Builder.for_instagram require_account
view-for_instagram account_id calls m h =
    let made : InstagramBuilder = record { account_id = account_id; t = no_instagram } in
    let taken : Memory = record m { next = suc m.next } in
    elim (Bool-cases (str_eq account_id "")) [
      | inl e ↦ rw (e) (
          view-instagram_calls m.next calls
            (Builder.add_error "builder: ForInstagram: accountID is required" taken) made h)
      | inr e ↦ rw (e) (view-instagram_calls m.next calls taken made h)
    ]

view-for_youtube :
    (account_id : String) (calls : List YoutubeCall) (m : Memory)
    → IsWell m
    → view (follow (Chain.for_youtube account_id calls) m)
      ≡ plan_step (Chain.for_youtube account_id calls) (view m)
unfolding view follow read_request read_target plan_step Builder.for_youtube require_account
view-for_youtube account_id calls m h =
    let made : YoutubeBuilder = record { account_id = account_id; t = no_youtube } in
    let taken : Memory = record m { next = suc m.next } in
    elim (Bool-cases (str_eq account_id "")) [
      | inl e ↦ rw (e) (
          view-youtube_calls m.next calls
            (Builder.add_error "builder: ForYouTube: accountID is required" taken) made h)
      | inr e ↦ rw (e) (view-youtube_calls m.next calls taken made h)
    ]

view-follow : (c : Chain) (m : Memory) → IsWell m → view (follow c m) ≡ plan_step c (view m)
unfolding follow view read_request read_target plan_step Builder.with_media Builder.publish_now
view-follow (Chain.with_media ids) m h = refl
view-follow (Chain.schedule_at now t) m h = view-schedule_at now t m
view-follow Chain.publish_now m h = refl
view-follow (Chain.with_metadata key value) m h = view-with_metadata key value m
view-follow (Chain.for_instagram account_id calls) m h = view-for_instagram account_id calls m h
view-follow (Chain.for_youtube account_id calls) m h = view-for_youtube account_id calls m h

schedule_at-IsWell : (now t : Time) (m : Memory) → IsWell m → IsWell (Builder.schedule_at now t m)
unfolding Builder.schedule_at
schedule_at-IsWell now t m h = elim (Bool-cases (t == 0)) [
  | inl e ↦ rw (e) h
  | inr e ↦ elim (Bool-cases (ltb t (now + minimum_schedule_delay))) [
    | inl f ↦ rw (e, f) h
    | inr f ↦ rw (e, f) h
  ]
]

with_metadata-IsWell :
    (key value : String) (m : Memory) → IsWell m → IsWell (Builder.with_metadata key value m)
unfolding Builder.with_metadata
with_metadata-IsWell key value m h = elim (Option-cases m.builder.req.metadata) [
  | inl e ↦ rw (e) (IsBelow-suc m.next m.builder.req.targets h)
  | inr (p, e) ↦ rw (e) h
]

for_instagram-IsWell :
    (account_id : String) (calls : List InstagramCall) (m : Memory)
    → IsWell m
    → IsWell (follow (Chain.for_instagram account_id calls) m)
unfolding follow Builder.for_instagram require_account Below
for_instagram-IsWell account_id calls m h =
    let made : InstagramBuilder = record { account_id = account_id; t = no_instagram } in
    let taken : Memory = record m { next = suc m.next } in
    let well =
      All-append (IsBelow (suc m.next)) _ _ (IsBelow-suc m.next _ h) ((omega arith, tt), tt) in
    elim (Bool-cases (str_eq account_id "")) [
      | inl e ↦
          rw
            (
              e,
              done-instagram_calls m.next calls
                  (Builder.add_error "builder: ForInstagram: accountID is required" taken) made,
            )
            well
      | inr e ↦ rw (e, done-instagram_calls m.next calls taken made) well
    ]

for_youtube-IsWell :
    (account_id : String) (calls : List YoutubeCall) (m : Memory)
    → IsWell m
    → IsWell (follow (Chain.for_youtube account_id calls) m)
unfolding follow Builder.for_youtube require_account Below
for_youtube-IsWell account_id calls m h =
    let made : YoutubeBuilder = record { account_id = account_id; t = no_youtube } in
    let taken : Memory = record m { next = suc m.next } in
    let well =
      All-append (IsBelow (suc m.next)) _ _ (IsBelow-suc m.next _ h) ((tt, omega arith), tt) in
    elim (Bool-cases (str_eq account_id "")) [
      | inl e ↦
          rw
            (
              e,
              done-youtube_calls m.next calls
                  (Builder.add_error "builder: ForYouTube: accountID is required" taken) made,
            )
            well
      | inr e ↦ rw (e, done-youtube_calls m.next calls taken made) well
    ]

follow-IsWell : (c : Chain) (m : Memory) → IsWell m → IsWell (follow c m)
unfolding follow Builder.with_media Builder.publish_now
follow-IsWell (Chain.with_media ids) m h = h
follow-IsWell (Chain.schedule_at now t) m h = schedule_at-IsWell now t m h
follow-IsWell Chain.publish_now m h = h
follow-IsWell (Chain.with_metadata key value) m h = with_metadata-IsWell key value m h
follow-IsWell (Chain.for_instagram account_id calls) m h = for_instagram-IsWell account_id calls m h
follow-IsWell (Chain.for_youtube account_id calls) m h = for_youtube-IsWell account_id calls m h

view-follow_all :
    (cs : List Chain) (m : Memory) → IsWell m → view (follow_all cs m) ≡ plan cs (view m)
unfolding follow_all plan
view-follow_all [] m h = refl
view-follow_all (c ∷ cs) m h =
    view-follow_all cs (follow c m) (follow-IsWell c m h) ∙ ap (plan cs) (view-follow c m h)

-- What Build gives, with the request read through its pointers.
unfoldable pub read_build : Memory → Result String Request
read_build m = elim (build m) [ ok r ↦ ok (read_request m r) | err e ↦ err e ]

is_empty-map {ℓ κ} :
    {A : Type ℓ} {B : Type κ} (f : A → B) (xs : List A) → is_empty (map f xs) ≡ is_empty xs
is_empty-map f [] = refl
is_empty-map f (x ∷ xs) = refl

read_build-view : (m : Memory) → read_build m ≡ settle (view m)
unfolding read_build build settle view read_request
read_build-view m =
    let same = is_empty-map (read_target m) m.builder.req.targets in
    elim (is-[] m.builder.errors) [
      | inl (e, es, f) ↦ simp (read_build, build, settle, view, read_request, f)
      | inr f ↦ elim (Bool-cases (is_empty m.builder.req.media_ids)) [
        | inl g ↦ simp (read_build, build, settle, view, read_request, f, g)
        | inr g ↦ elim (Bool-cases (is_empty m.builder.req.targets)) [
          | inl t ↦ simp (read_build, build, settle, view, read_request, f, g, same, t)
          | inr t ↦
              elim (Bool-cases
                (is_some m.builder.req.scheduled_at && m.builder.req.publish_immediately)) [
                  | inl s ↦ simp (read_build, build, settle, view, read_request, f, g, same, t, s)
                  | inr s ↦ simp (read_build, build, settle, view, read_request, f, g, same, t, s)
                ]
        ]
      ]
    ]

-- After any sequence of calls and whole chains on a new builder, Build gives the request of the plan
-- of the same sequence, each target with the configuration that its own chain wrote, or the error
-- that settling the plan gives.
pub read_build-follow_all :
    (cs : List Chain) → read_build (follow_all cs new_post) ≡ settle (plan cs no_plan)
unfolding new_post view read_request
read_build-follow_all cs =
    read_build-view (follow_all cs new_post) ∙ ap settle (view-follow_all cs new_post tt)
