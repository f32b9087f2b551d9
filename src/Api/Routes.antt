-- ===== src/Api/Routes.antt =====
-- internal/api/server.go: New, the table of its routes. Which paths a pattern takes is the router's
-- (chi), a parameter where a statement is about it.
use socialpublish.Prelude.{
  String, Bool, true, false, ◌&&◌, List, [], ◌∷◌, ◌++◌, map, Bytes, bytes_eq, codes, is_empty, not,
}
use socialpublish.Sdk.Request.{Method}

pub data Segment : Type 0 where
  literal : Bytes → Segment
  placeholder : Segment

abbrev pub Pattern : Type 0
Pattern = List Segment

pub data Handler : Type 0 where
  health : Handler
  readyz : Handler
  account_list : Handler
  account_connect : Handler
  account_get : Handler
  account_delete : Handler
  account_status : Handler
  media_upload : Handler
  media_list : Handler
  media_get : Handler
  media_delete : Handler
  media_set_thumbnail : Handler
  post_create : Handler
  post_list : Handler
  post_get : Handler
  post_update : Handler
  post_delete : Handler
  post_publish : Handler
  post_cancel : Handler
  post_duplicate : Handler
  schedule_calendar : Handler
  schedule_queue : Handler
  schedule_next_available : Handler
  analytics_post : Handler
  analytics_account : Handler
  analytics_summary : Handler
  webhook_create : Handler
  webhook_list : Handler
  webhook_delete : Handler
  webhook_test : Handler

-- A middleware; chi has one of its own named RequestID.
pub data Layer : Type 0 where
  chi_request_id : Layer
  request_id : Layer
  real_ip : Layer
  recoverer : Layer
  logger : Layer
  cors : Layer
  authenticate : Layer
  inject_tenant : Layer
  rate_limit : Layer

-- `layers` are the middlewares before the handler, the outermost first.
pub record Route : Type 0 where
  pub method : Method
  pub pattern : Pattern
  pub handler : Handler
  pub layers : List Layer

abbrev route : Method → Pattern → Handler → Route
route method pattern handler = record {
  method = method;
  pattern = pattern;
  handler = handler;
  layers = [];
}

-- r.Route(prefix, …)
abbrev mount : String → List Route → List Route
mount prefix rs = map (λ (r : Route). record r { pattern = literal (codes prefix) ∷ r.pattern }) rs

-- r.Use of middlewares for the routes of one router.
abbrev use_layers : List Layer → List Route → List Route
use_layers ls rs = map (λ (r : Route). record r { layers = ls ++ r.layers }) rs

abbrev pub outer_layers : List Layer
outer_layers = chi_request_id ∷ request_id ∷ real_ip ∷ recoverer ∷ logger ∷ cors ∷ []

abbrev pub v1_layers : List Layer
v1_layers = authenticate ∷ inject_tenant ∷ rate_limit ∷ []

abbrev on : String → Pattern
on text = literal (codes text) ∷ []

abbrev with_id : Pattern
with_id = placeholder ∷ []

account_routes : List Route
account_routes =
    route Method.get [] account_list
    ∷ route Method.post (on "connect") account_connect
    ∷ route Method.get with_id account_get
    ∷ route Method.delete with_id account_delete
    ∷ route Method.get (with_id ++ on "status") account_status
    ∷ []

media_routes : List Route
media_routes =
    route Method.post (on "upload") media_upload
    ∷ route Method.get [] media_list
    ∷ route Method.get with_id media_get
    ∷ route Method.delete with_id media_delete
    ∷ route Method.post (with_id ++ on "thumbnail") media_set_thumbnail
    ∷ []

post_routes : List Route
post_routes =
    route Method.post [] post_create
    ∷ route Method.get [] post_list
    ∷ route Method.get with_id post_get
    ∷ route Method.patch with_id post_update
    ∷ route Method.delete with_id post_delete
    ∷ route Method.post (with_id ++ on "publish") post_publish
    ∷ route Method.post (with_id ++ on "cancel") post_cancel
    ∷ route Method.post (with_id ++ on "duplicate") post_duplicate
    ∷ []

schedule_routes : List Route
schedule_routes =
    route Method.get [] schedule_calendar
    ∷ route Method.get (on "queue") schedule_queue
    ∷ route Method.get (on "next-available") schedule_next_available
    ∷ []

analytics_routes : List Route
analytics_routes =
    route Method.get (on "posts" ++ with_id) analytics_post
    ∷ route Method.get (on "accounts" ++ with_id) analytics_account
    ∷ route Method.get (on "summary") analytics_summary
    ∷ []

webhook_routes : List Route
webhook_routes =
    route Method.post [] webhook_create
    ∷ route Method.get [] webhook_list
    ∷ route Method.delete with_id webhook_delete
    ∷ route Method.post (with_id ++ on "test") webhook_test
    ∷ []

unfoldable pub routes : List Route
unfolding account_routes media_routes post_routes schedule_routes analytics_routes webhook_routes
routes = use_layers outer_layers (
    route Method.get (on "health") health
    ∷ route Method.get (on "readyz") readyz
    ∷ mount "v1" (
        use_layers v1_layers (
          mount "accounts" account_routes
          ++ mount "media" media_routes
          ++ mount "posts" post_routes
          ++ mount "schedule" schedule_routes
          ++ mount "analytics" analytics_routes
          ++ mount "webhooks" webhook_routes)))

unfoldable pub same_method : Method → Method → Bool
same_method Method.get Method.get = true
same_method Method.post Method.post = true
same_method Method.patch Method.patch = true
same_method Method.delete Method.delete = true
same_method _ _ = false

same_length : Pattern → List Bytes → Bool
same_length [] [] = true
same_length (p ∷ pattern) (s ∷ path) = same_length pattern path
same_length _ _ = false

takes : Pattern → List Bytes → Bool
unfolding bytes_eq
takes (literal text ∷ pattern) (s ∷ path) = bytes_eq text s && takes pattern path
takes (placeholder ∷ pattern) (s ∷ path) = not (is_empty s) && takes pattern path
takes _ _ = true

-- What the router documents of its patterns, for a path in its segments: a literal takes its own
-- text, a placeholder any text that is not empty.
unfoldable pub fits : Pattern → List Bytes → Bool
unfolding same_length takes
fits pattern path = same_length pattern path && takes pattern path
