-- ===== src/Sdk/Routed.antt =====
-- The requests of the services in sdk/services against the routes of internal/api/server.go. The
-- recorder is a transport that gives back each request as its error.
pub mod Laws
use socialpublish.Prelude.{
  String, Bool, true, false, ◌&&◌, Option, none, some, List, [], ◌∷◌, ◌++◌, map, select, drop, All,
  Bytes, codes, Result, ok, err, ◌≡◌, ◌≢◌, refl, sym, ap, ◌∙◌, bytes_eq,
}
use socialpublish.Store.Types.{Time}
use socialpublish.GoText.Split.{split, Lacks, split-Lacks, split-append}
use socialpublish.Sdk.Request.{Doer, Method}
use socialpublish.Sdk.Post.{CreateRequest, ListParams}
use socialpublish.Sdk.Account
use socialpublish.Sdk.Account.{ConnectRequest}
use socialpublish.Sdk.Media
use socialpublish.Sdk.Media.{UploadRequest}
use socialpublish.Sdk.Posts
use socialpublish.Sdk.Posts.{UpdateRequest}
use socialpublish.Sdk.Schedule
use socialpublish.Sdk.Schedule.{CalendarParams, QueueParams}
use socialpublish.Sdk.Analytics
use socialpublish.Sdk.Analytics.{SummaryParams}
use socialpublish.Api.Routes.{
  Handler, Route, Pattern, Layer, outer_layers, v1_layers, routes, same_method, fits,
}

-- A call of a service.
pub data Operation : Type 0 where
  account_connect : ConnectRequest → Operation
  account_get : (id : Bytes) → Operation
  account_list : Option Account.ListParams → Operation
  account_delete : (id : Bytes) → Operation
  account_status : (id : Bytes) → Operation
  media_create_upload : UploadRequest → Operation
  media_get : (id : Bytes) → Operation
  media_list : Option Media.ListParams → Operation
  media_delete : (id : Bytes) → Operation
  media_set_thumbnail : (id : Bytes) → String → Operation
  post_create : CreateRequest → Operation
  post_get : (id : Bytes) → Operation
  post_list : Option ListParams → Operation
  post_update : (id : Bytes) → UpdateRequest → Operation
  post_delete : (id : Bytes) → Operation
  post_publish : (id : Bytes) → Operation
  post_cancel : (id : Bytes) → Operation
  schedule_calendar : Option CalendarParams → Operation
  schedule_queue : Option QueueParams → Operation
  schedule_next_available : Operation
  analytics_post : (id : Bytes) → Operation
  analytics_account : (id : Bytes) → Operation
  analytics_summary : Option SummaryParams → Operation

unfoldable pub recorder : (B Out : Type 0) → Doer (Method × Bytes) B Out
recorder B Out method path query body out = err (method, path)

unfoldable pub received : {A : Type 0} → Result (Method × Bytes) A → Method × Bytes
received (err request) = request
received (ok a) = (Method.get, [])

-- The handler that an operation is meant for.
unfoldable pub meant : Operation → Handler
meant (Operation.account_connect _) = Handler.account_connect
meant (Operation.account_get _) = Handler.account_get
meant (Operation.account_list _) = Handler.account_list
meant (Operation.account_delete _) = Handler.account_delete
meant (Operation.account_status _) = Handler.account_status
meant (Operation.media_create_upload _) = Handler.media_upload
meant (Operation.media_get _) = Handler.media_get
meant (Operation.media_list _) = Handler.media_list
meant (Operation.media_delete _) = Handler.media_delete
meant (Operation.media_set_thumbnail _ _) = Handler.media_set_thumbnail
meant (Operation.post_create _) = Handler.post_create
meant (Operation.post_get _) = Handler.post_get
meant (Operation.post_list _) = Handler.post_list
meant (Operation.post_update _ _) = Handler.post_update
meant (Operation.post_delete _) = Handler.post_delete
meant (Operation.post_publish _) = Handler.post_publish
meant (Operation.post_cancel _) = Handler.post_cancel
meant (Operation.schedule_calendar _) = Handler.schedule_calendar
meant (Operation.schedule_queue _) = Handler.schedule_queue
meant (Operation.schedule_next_available) = Handler.schedule_next_available
meant (Operation.analytics_post _) = Handler.analytics_post
meant (Operation.analytics_account _) = Handler.analytics_account
meant (Operation.analytics_summary _) = Handler.analytics_summary

-- The identifiers in the path are not empty.
unfoldable pub HasIds : Operation → Type 0
HasIds (Operation.account_get id) = id ≢ []
HasIds (Operation.account_delete id) = id ≢ []
HasIds (Operation.account_status id) = id ≢ []
HasIds (Operation.media_get id) = id ≢ []
HasIds (Operation.media_delete id) = id ≢ []
HasIds (Operation.media_set_thumbnail id _) = id ≢ []
HasIds (Operation.post_get id) = id ≢ []
HasIds (Operation.post_update id _) = id ≢ []
HasIds (Operation.post_delete id) = id ≢ []
HasIds (Operation.post_publish id) = id ≢ []
HasIds (Operation.post_cancel id) = id ≢ []
HasIds (Operation.analytics_post id) = id ≢ []
HasIds (Operation.analytics_account id) = id ≢ []
HasIds _ = Unit

module _ (escape : Bytes → Bytes) (format : Time → String) where
  -- The request that a service sends for an operation.
  unfoldable pub sent : Operation → Method × Bytes
  unfolding recorder received Account.connect Account.get Account.list Account.delete Account.status
      Media.create_upload Media.get Media.list Media.delete Media.set_thumbnail Posts.create
      Posts.get Posts.list Posts.update Posts.delete Posts.publish Posts.cancel Schedule.calendar
      Schedule.queue Schedule.next_available Analytics.post Analytics.account Analytics.summary
  sent (Operation.account_connect req) = received (Account.connect recorder escape req)
  sent (Operation.account_get id) = received (Account.get recorder escape id)
  sent (Operation.account_list params) = received (Account.list recorder escape params)
  sent (Operation.account_delete id) = received (Account.delete recorder escape id)
  sent (Operation.account_status id) = received (Account.status recorder escape id)
  sent (Operation.media_create_upload req) = received (Media.create_upload recorder escape req)
  sent (Operation.media_get id) = received (Media.get recorder escape id)
  sent (Operation.media_list params) = received (Media.list recorder escape params)
  sent (Operation.media_delete id) = received (Media.delete recorder escape id)
  sent (Operation.media_set_thumbnail id key) =
      received (Media.set_thumbnail recorder escape id key)
  sent (Operation.post_create req) = received (Posts.create recorder escape format req)
  sent (Operation.post_get id) = received (Posts.get recorder escape format id)
  sent (Operation.post_list params) = received (Posts.list recorder escape format params)
  sent (Operation.post_update id req) = received (Posts.update recorder escape format id req)
  sent (Operation.post_delete id) = received (Posts.delete recorder escape format id)
  sent (Operation.post_publish id) = received (Posts.publish recorder escape format id)
  sent (Operation.post_cancel id) = received (Posts.cancel recorder escape format id)
  sent (Operation.schedule_calendar params) = received (Schedule.calendar recorder format params)
  sent (Operation.schedule_queue params) = received (Schedule.queue recorder format params)
  sent (Operation.schedule_next_available) = received (Schedule.next_available recorder format)
  sent (Operation.analytics_post id) = received (Analytics.post recorder escape format id)
  sent (Operation.analytics_account id) = received (Analytics.account recorder escape format id)
  sent (Operation.analytics_summary params) =
      received (Analytics.summary recorder escape format params)

-- The segments of a path behind its first slash.
abbrev pub segments : Bytes → List Bytes
segments path = drop 1 (split b'/' path)

unfoldable pub served : (Pattern → Bytes → Bool) → Method × Bytes → List (Handler × List Layer)
unfolding select
served matches (method, path) =
    map (λ (r : Route). (r.handler, r.layers))
      (select (λ (r : Route). same_method r.method method && matches r.pattern path) routes)
