-- ===== src/Sdk/Routed/Laws.antt =====
-- What the router does with the requests of the services.
use mathlib.Core.Path.{fun_ext}
use socialpublish.Prelude.{
  true, not, is_empty, All-append, ℕ, String, Bool, ◌&&◌, List, [], ◌∷◌, ◌++◌, map, select, All,
  Bytes, codes, ◌≡◌, ◌≢◌, refl, sym, subst, ap, ◌∙◌, bytes_eq,
}
use socialpublish.Store.Types.{Time}
use socialpublish.GoText.Split.{split, Lacks, split-Lacks, split-append}
use socialpublish.Sdk.Request.{Method}
use socialpublish.Sdk.Account
use socialpublish.Sdk.Media
use socialpublish.Sdk.Posts
use socialpublish.Sdk.Schedule
use socialpublish.Sdk.Analytics
use socialpublish.Api.Routes.{
  Handler, Route, Pattern, Layer, outer_layers, v1_layers, routes, same_method, fits,
}
use socialpublish.Sdk.Routed.{Operation, HasIds, meant, sent, segments, served, recorder, received}

-- The routes whose pattern fits the segments of a path.
fitting : Method → List Bytes → List (Handler × List Layer)
fitting method path =
    map (λ (r : Route). (r.handler, r.layers))
      (select (λ (r : Route). same_method r.method method && fits r.pattern path) routes)

abbrev IsText : Bytes → Type 0
IsText s = s ≢ []

Bytes-cases : (s : Bytes) → s ≢ [] → (c : ℕ) × (t : Bytes) × (s ≡ c ∷ t)
Bytes-cases [] h = absurd (h refl)
Bytes-cases (c ∷ t) h = (c, t, refl)

abbrev behind_all : Handler → List (Handler × List Layer)
behind_all handler = (handler, outer_layers ++ v1_layers) ∷ []

are_texts : List Bytes → Bool
are_texts [] = true
are_texts (s ∷ ss) = not (is_empty s) && are_texts ss

All-IsText : (ss : List Bytes) → are_texts ss ≡ true → All IsText ss
unfolding are_texts
All-IsText [] h = tt
All-IsText ([] ∷ ss) h = absurd (cc)
All-IsText ((c ∷ s) ∷ ss) h = (λ e. cc, All-IsText ss h)

-- What url.PathEscape documents of an identifier, and the router of its patterns.
module _ (escape : Bytes → Bytes) (format : Time → String) (matches : Pattern → Bytes → Bool)
    (escapes : (id : Bytes) → id ≢ [] → (escape id ≢ []) × Lacks b'/' (escape id))
    (matching : (pattern : Pattern) (path : Bytes)
      → All IsText (segments path)
      → matches pattern path ≡ fits pattern (segments path)) where
  finds :
      (method : Method) (path : Bytes) (parts : List Bytes) (found : List (Handler × List Layer))
      → segments path ≡ parts
      → All IsText parts
      → fitting method parts ≡ found
      → served matches (method, path) ≡ found
  unfolding served fitting
  finds method path parts found e texts fit =
      let same : (r : Route) → matches r.pattern path ≡ fits r.pattern parts =
        λ r. matching r.pattern path (subst (All IsText) (sym e) texts) ∙ ap (fits r.pattern) e in
      ap (λ (q : Route → Bool). map (λ (r : Route). (r.handler, r.layers)) (select q routes))
        (fun_ext λ (r : Route). ap (λ (b : Bool). same_method r.method method && b) (same r))
      ∙ fit

  -- A path without identifiers.
  at_path :
      (method : Method) (path : Bytes) (parts : List Bytes) (handler : Handler)
      → segments path ≡ parts
      → are_texts parts ≡ true
      → fitting method parts ≡ behind_all handler
      → served matches (method, path) ≡ behind_all handler
  at_path method path parts handler e texts fit =
      finds method path parts (behind_all handler) e (All-IsText parts texts) fit

  -- An identifier between the texts of a path, of which the router sees only that it is not empty.
  at_id :
      (method : Method) (before after : List Bytes) (path : Bytes → Bytes) (handler : Handler)
      (id : Bytes)
      → id ≢ []
      → ((s : Bytes) → Lacks b'/' s → segments (path s) ≡ before ++ s ∷ after)
      → are_texts before ≡ true
      → are_texts after ≡ true
      → ((c : ℕ) (u : Bytes) → fitting method (before ++ (c ∷ u) ∷ after) ≡ behind_all handler)
      → served matches (method, path (escape id)) ≡ behind_all handler
  at_id method before after path handler id named parts texts more fit =
      let (t, l) = escapes id named in
      let (c, u, e) = Bytes-cases (escape id) t in
      finds method (path (escape id)) (before ++ escape id ∷ after) (behind_all handler)
        (parts (escape id) l)
        (All-append IsText before _ (All-IsText before texts) (t, All-IsText after more))
        (ap (λ (s : Bytes). fitting method (before ++ s ∷ after)) e ∙ fit c u)

  -- An identifier at the end of a path.
  at_last :
      (method : Method) (before : List Bytes) (base : Bytes) (handler : Handler) (id : Bytes)
      → id ≢ []
      → ((s : Bytes) → Lacks b'/' s → segments (base ++ s) ≡ before ++ s ∷ [])
      → are_texts before ≡ true
      → ((c : ℕ) (u : Bytes) → fitting method (before ++ (c ∷ u) ∷ []) ≡ behind_all handler)
      → served matches (method, base ++ escape id) ≡ behind_all handler
  unfolding are_texts
  at_last method before base handler id named parts texts fit =
      at_id method before [] (λ s. base ++ s) handler id named parts texts refl fit

  -- Each request of a service, with identifiers that are not empty, fits the pattern of exactly one
  -- route of the server: the one of the handler that it is meant for, behind the common
  -- middlewares, authentication, the tenant and the rate limit, in this order.
  pub routed :
      (op : Operation)
      → HasIds op
      → served matches (sent escape format op) ≡ (meant op, outer_layers ++ v1_layers) ∷ []
  unfolding sent meant HasIds fitting received recorder split select routes fits same_method
      bytes_eq are_texts Account.connect Account.get Account.list Account.delete Account.status
      Media.create_upload Media.get Media.list Media.delete Media.set_thumbnail Posts.create
      Posts.get Posts.list Posts.update Posts.delete Posts.publish Posts.cancel Schedule.calendar
      Schedule.queue Schedule.next_available Analytics.post Analytics.account Analytics.summary
  routed (Operation.account_connect req) ids =
      at_path Method.post _ (codes "v1" ∷ codes "accounts" ∷ codes "connect" ∷ [])
        Handler.account_connect refl refl refl
  routed (Operation.account_get id) ids =
      at_last Method.get (codes "v1" ∷ codes "accounts" ∷ []) (codes "/v1/accounts/")
        Handler.account_get id ids (λ s l. rw (split-Lacks b'/' s l) refl) refl (λ c u. refl)
  routed (Operation.account_list params) ids =
      at_path Method.get _ (codes "v1" ∷ codes "accounts" ∷ []) Handler.account_list refl refl refl
  routed (Operation.account_delete id) ids =
      at_last Method.delete (codes "v1" ∷ codes "accounts" ∷ []) (codes "/v1/accounts/")
        Handler.account_delete id ids (λ s l. rw (split-Lacks b'/' s l) refl) refl (λ c u. refl)
  routed (Operation.account_status id) ids =
      at_id Method.get (codes "v1" ∷ codes "accounts" ∷ []) (codes "status" ∷ [])
        (λ s. codes "/v1/accounts/" ++ s ++ codes "/status") Handler.account_status id ids
        (λ s l. rw (split-append b'/' s (codes "status") l) refl) refl refl (λ c u. refl)
  routed (Operation.media_create_upload req) ids =
      at_path Method.post _ (codes "v1" ∷ codes "media" ∷ codes "upload" ∷ []) Handler.media_upload
        refl refl refl
  routed (Operation.media_get id) ids =
      at_last Method.get (codes "v1" ∷ codes "media" ∷ []) (codes "/v1/media/") Handler.media_get id
        ids (λ s l. rw (split-Lacks b'/' s l) refl) refl (λ c u. refl)
  routed (Operation.media_list params) ids =
      at_path Method.get _ (codes "v1" ∷ codes "media" ∷ []) Handler.media_list refl refl refl
  routed (Operation.media_delete id) ids =
      at_last Method.delete (codes "v1" ∷ codes "media" ∷ []) (codes "/v1/media/")
        Handler.media_delete id ids (λ s l. rw (split-Lacks b'/' s l) refl) refl (λ c u. refl)
  routed (Operation.media_set_thumbnail id key) ids =
      at_id Method.post (codes "v1" ∷ codes "media" ∷ []) (codes "thumbnail" ∷ [])
        (λ s. codes "/v1/media/" ++ s ++ codes "/thumbnail") Handler.media_set_thumbnail id ids
        (λ s l. rw (split-append b'/' s (codes "thumbnail") l) refl) refl refl (λ c u. refl)
  routed (Operation.post_create req) ids =
      at_path Method.post _ (codes "v1" ∷ codes "posts" ∷ []) Handler.post_create refl refl refl
  routed (Operation.post_get id) ids =
      at_last Method.get (codes "v1" ∷ codes "posts" ∷ []) (codes "/v1/posts/") Handler.post_get id
        ids (λ s l. rw (split-Lacks b'/' s l) refl) refl (λ c u. refl)
  routed (Operation.post_list params) ids =
      at_path Method.get _ (codes "v1" ∷ codes "posts" ∷ []) Handler.post_list refl refl refl
  routed (Operation.post_update id req) ids =
      at_last Method.patch (codes "v1" ∷ codes "posts" ∷ []) (codes "/v1/posts/")
        Handler.post_update id ids (λ s l. rw (split-Lacks b'/' s l) refl) refl (λ c u. refl)
  routed (Operation.post_delete id) ids =
      at_last Method.delete (codes "v1" ∷ codes "posts" ∷ []) (codes "/v1/posts/")
        Handler.post_delete id ids (λ s l. rw (split-Lacks b'/' s l) refl) refl (λ c u. refl)
  routed (Operation.post_publish id) ids =
      at_id Method.post (codes "v1" ∷ codes "posts" ∷ []) (codes "publish" ∷ [])
        (λ s. codes "/v1/posts/" ++ s ++ codes "/publish") Handler.post_publish id ids
        (λ s l. rw (split-append b'/' s (codes "publish") l) refl) refl refl (λ c u. refl)
  routed (Operation.post_cancel id) ids =
      at_id Method.post (codes "v1" ∷ codes "posts" ∷ []) (codes "cancel" ∷ [])
        (λ s. codes "/v1/posts/" ++ s ++ codes "/cancel") Handler.post_cancel id ids
        (λ s l. rw (split-append b'/' s (codes "cancel") l) refl) refl refl (λ c u. refl)
  routed (Operation.schedule_calendar params) ids =
      at_path Method.get _ (codes "v1" ∷ codes "schedule" ∷ []) Handler.schedule_calendar refl refl
        refl
  routed (Operation.schedule_queue params) ids =
      at_path Method.get _ (codes "v1" ∷ codes "schedule" ∷ codes "queue" ∷ [])
        Handler.schedule_queue refl refl refl
  routed (Operation.schedule_next_available) ids =
      at_path Method.get _ (codes "v1" ∷ codes "schedule" ∷ codes "next-available" ∷ [])
        Handler.schedule_next_available refl refl refl
  routed (Operation.analytics_post id) ids =
      at_last Method.get (codes "v1" ∷ codes "analytics" ∷ codes "posts" ∷ [])
        (codes "/v1/analytics/posts/") Handler.analytics_post id ids
        (λ s l. rw (split-Lacks b'/' s l) refl) refl (λ c u. refl)
  routed (Operation.analytics_account id) ids =
      at_last Method.get (codes "v1" ∷ codes "analytics" ∷ codes "accounts" ∷ [])
        (codes "/v1/analytics/accounts/") Handler.analytics_account id ids
        (λ s l. rw (split-Lacks b'/' s l) refl) refl (λ c u. refl)
  routed (Operation.analytics_summary params) ids =
      at_path Method.get _ (codes "v1" ∷ codes "analytics" ∷ codes "summary" ∷ [])
        Handler.analytics_summary refl refl refl
