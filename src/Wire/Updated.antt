-- ===== src/Wire/Updated.antt =====
-- Update of sdk/services/post/service.go against Update of internal/api/handler/post.go, which joins
-- the request to the metadata of the post.
use socialpublish.Prelude.{
  ℕ, String, Bool, true, false, Option, none, some, List, [], ◌∷◌, is_empty, Bytes, str_eq,
  str_eq_iff, if◌then◌else◌, Bool-cases, Option-cases, inl, inr, ok, ◌≡◌, ◌≢◌, refl,
}
use socialpublish.Store.Json.{
  Json, Items, Fields, end, field, null, boolean, number, text, array, object, set_field,
  merge_fields,
}
use socialpublish.Store.Types.{Time}
use socialpublish.Store.Types
use socialpublish.Store.Database.{World, Env, IsUp, one_row, query, ◌>>=◌}
use socialpublish.Store.Posts
use socialpublish.Store.Posts.{post_is}
use socialpublish.Store.Posts.Metadata.{get-update}
use socialpublish.Api.Http.{post_body}
use socialpublish.Api.Post
use socialpublish.Sdk.Builder.{StringMap}
use socialpublish.Sdk.Builder.Plan.{PlannedTarget}
use socialpublish.Wire.Values.{
  TimeText, fields_of, items_of, text_fields, slice, pointer, unless, read_text_map, into_text,
  as_text_map,
}
use socialpublish.Wire.Answers.{body_json, post_json}
use socialpublish.Wire.Requests.{unless_nil, is_none, planned_target_json}
use socialpublish.Wire.Reads.{read_post}
use socialpublish.Wire.Seen.{post_of}

-- UpdateRequest, with the configurations behind its pointers.
pub record PlannedUpdate : Type 0 where
  pub media_ids : List String
  pub targets : List PlannedTarget
  pub scheduled_at : Option Time
  pub metadata : StringMap

-- The fields of the request as JSON.
unfoldable pub update_fields : (float_text : ℕ → String) → TimeText → PlannedUpdate → Fields
unfolding fields_of items_of text_fields planned_target_json
update_fields float_text times r = fields_of (
    unless_nil "media_ids" r.media_ids (
      unless (is_empty r.targets) ("targets", slice (planned_target_json float_text) r.targets)
        (unless (is_none r.scheduled_at)
          ("scheduled_at", pointer (λ t. text (times.print t)) r.scheduled_at)
          (unless (is_empty r.metadata) ("metadata", object (text_fields r.metadata)) []))))

abbrev is_array : Json → Bool
is_array (array vs) = true
is_array _ = false

-- Whether an array stands under a key.
holds_array : String → Fields → Bool
holds_array k end = false
holds_array k (field j v fs) =
    let rest = holds_array k fs in if str_eq j k then is_array v else rest

str_eq_refl : (s : String) → str_eq s s ≡ true
str_eq_refl s = (str_eq_iff s s).1 refl

holds_array-set_field :
    (k : String) (vs : Items) (fs : Fields) → holds_array k (set_field k (array vs) fs) ≡ true
unfolding holds_array set_field
holds_array-set_field k vs end = rw (str_eq_refl k) refl
holds_array-set_field k vs (field j w fs) = elim (Bool-cases (str_eq j k)) [
  | inl e ↦ rw (e, str_eq_refl k) refl
  | inr e ↦ rw (e, e) (holds_array-set_field k vs fs)
]

holds_array-other :
    (k other : String) (v : Json) (fs : Fields)
    → str_eq other k ≡ false
    → holds_array k fs ≡ true
    → holds_array k (set_field other v fs) ≡ true
unfolding holds_array set_field
holds_array-other k other v end ne h = absurd (cc)
holds_array-other k other v (field j w fs) ne h = elim (Bool-cases (str_eq j other)) [
  | inl e ↦ let same : j ≡ other = (str_eq_iff j other).0 e in rw (e, ne) (rw (same, ne) at h)
  | inr e ↦ elim (Bool-cases (str_eq j k)) [
    | inl f ↦ rw (e, f) (rw f at h)
    | inr f ↦ rw (e, f) (holds_array-other k other v fs ne (rw f at h))
  ]
]

into_text-array : (v : Json) → is_array v ≡ true → into_text v "" ≡ none
into_text-array null h = absurd (cc)
into_text-array (boolean b) h = absurd (cc)
into_text-array (number n) h = absurd (cc)
into_text-array (text t) h = absurd (cc)
into_text-array (object fs) h = absurd (cc)
into_text-array (array vs) h = refl

read_text_map-array : (k : String) (fs : Fields) → holds_array k fs ≡ true → read_text_map fs ≡ none
unfolding holds_array read_text_map
read_text_map-array k end h = absurd (cc)
read_text_map-array k (field j v fs) h = elim (Bool-cases (str_eq j k)) [
  | inl e ↦ cc (into_text-array v (rw e at h))
  | inr e ↦ elim (Option-cases (into_text v "")) [
    | inl f ↦ cc f
    | inr (s, f) ↦ cc (f, read_text_map-array k fs (rw e at h))
  ]
]

-- A key that no field has.
NoKey : String → Fields → Type 0
NoKey k end = Unit
NoKey k (field j v fs) = (str_eq j k ≡ false) × NoKey k fs

NoKey-nil : (k : String) → NoKey k (fields_of [])
unfolding NoKey fields_of
NoKey-nil k = tt

NoKey-unless :
    (k other : String) (v : Json) (rest : List (String × Json)) (omitted : Bool)
    → str_eq other k ≡ false
    → NoKey k (fields_of rest)
    → NoKey k (fields_of (unless omitted (other, v) rest))
unfolding NoKey fields_of
NoKey-unless k other v rest true ne h = h
NoKey-unless k other v rest false ne h = (ne, h)

holds_array-merge_fields :
    (k : String) (fs gs : Fields)
    → holds_array k fs ≡ true
    → NoKey k gs
    → holds_array k (merge_fields fs gs) ≡ true
unfolding merge_fields NoKey
holds_array-merge_fields k fs end h none_of = h
holds_array-merge_fields k fs (field j v gs) h (ne, none_of) =
    holds_array-merge_fields k (set_field j v fs) gs (holds_array-other k j v fs ne h) none_of

media_joined :
    (old : Fields) (float_text : ℕ → String) (times : TimeText) (l : List String)
    (ts : List PlannedTarget) (s : Option Time) (md : StringMap)
    → l ≢ []
    → holds_array "media_ids" (
        merge_fields old (
          update_fields float_text times
            (record { media_ids = l; targets = ts; scheduled_at = s; metadata = md })))
      ≡ true
unfolding update_fields merge_fields fields_of
media_joined old float_text times [] ts s md nonempty = absurd (nonempty refl)
media_joined old float_text times (m ∷ l) ts s md nonempty =
    holds_array-merge_fields "media_ids" _ _ (holds_array-set_field "media_ids" _ old) (
      NoKey-unless "media_ids" "targets" _ _ (is_empty ts) refl (
        NoKey-unless "media_ids" "scheduled_at" _ _ (is_none s) refl
          (NoKey-unless "media_ids" "metadata" _ _ (is_empty md) refl (NoKey-nil "media_ids"))))

update-up :
    {env : Env} (up : IsUp env) (post_id : String) (fields : Json) (w : World)
    → Posts.update env post_id fields w ≡ (ok tt, (Posts.update env post_id fields w).1)
unfolding Posts.update query
update-up up post_id fields w = rw (up.answers w.calls) refl

module _ {env : Env} (up : IsUp env) (post_id : String) (w : World) (p : Types.Post) (old : Fields)
    (found : one_row (post_is post_id) w.posts ≡ ok p) (stored : p.metadata ≡ object old)
    (times : TimeText) (chars : Bytes → String) (float_text : ℕ → String) (r : PlannedUpdate) where
  -- The post behind the update.
  abbrev pub joined : Types.Post
  joined = record p {
    metadata = object (merge_fields old (update_fields float_text times r));
    updated_at = env.now w.calls;
  }

  update-answered :
      (Post.update env post_id (some (object (update_fields float_text times r))) w).0
      ≡ record { status = 200; body = post_body (some joined) }
  unfolding Post.update ◌>>=◌
  update-answered =
      let fields = update_fields float_text times r in
      let marked = update-up up post_id (object fields) w in
      let read = get-update up post_id (object fields) w p found old fields stored refl in
      rw (marked, rw marked at read) refl

  -- If the database answers and has the post, whose metadata is an object: Update answers a request of
  -- the SDK by the post with the fields of the request in its metadata, and with the media, the status
  -- and the time that it had; if the request has media, the SDK cannot read the answer.
  pub update_joined :
      ((Post.update env post_id (some (object (update_fields float_text times r))) w).0
        ≡ record { status = 200; body = post_body (some joined) })
      × (r.media_ids ≢ [] → post_of times chars (post_body (some joined)) ≡ none)
  unfolding body_json read_post post_json as_text_map
  update_joined = (
    update-answered,
    λ nonempty.
        let unread = read_text_map-array "media_ids" _ (
          media_joined old float_text times r.media_ids r.targets r.scheduled_at r.metadata
            nonempty) in
        cc unread,
  )
