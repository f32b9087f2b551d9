-- ===== src/Sdk/Schedule.antt =====
-- sdk/services/schedule: types.go and service.go. The transport and Time.Format are parameters.
use socialpublish.Prelude.{ℤ, String, Bool, false, Option, none, some, List, [], codes, Result}
use socialpublish.Store.Types.{Time}
use socialpublish.Sdk.Request.{Doer, Method, StringMap, set_limit, set_text, set_time}

pub record Window : Type 0 where
  pub start : Time
  pub end : Time

abbrev pub no_window : Window
no_window = record { start = 0; end = 0 }

pub record CalendarParams : Type 0 where
  pub from : Option Time
  pub to : Option Time

pub record QueueParams : Type 0 where
  pub limit : ℤ
  pub cursor : String

pub record Entry : Type 0 where
  pub post_id : String
  pub status : String
  pub scheduled_at : Time
  pub platforms : List String

pub record CalendarResponse : Type 0 where
  pub entries : List Entry

abbrev pub no_calendar_response : CalendarResponse
no_calendar_response = record { entries = [] }

pub record QueueResponse : Type 0 where
  pub items : List Entry
  pub next_cursor : String
  pub has_more : Bool

abbrev pub no_queue_response : QueueResponse
no_queue_response = record { items = []; next_cursor = ""; has_more = false }

module _ {E : Type 0} (do_json : (B Out : Type 0) → Doer E B Out) (format : Time → String) where
  unfoldable pub calendar_query : Option CalendarParams → StringMap
  calendar_query none = []
  calendar_query (some params) =
      set_time format "to" params.to (set_time format "from" params.from [])

  unfoldable pub calendar : Option CalendarParams → Result E CalendarResponse
  unfolding calendar_query
  calendar params =
      do_json (Unit {0}) CalendarResponse Method.get (codes "/v1/schedule")
        (some (calendar_query params)) none no_calendar_response

  unfoldable pub queue_query : Option QueueParams → StringMap
  queue_query none = []
  queue_query (some params) = set_text "cursor" params.cursor (set_limit params.limit [])

  unfoldable pub queue : Option QueueParams → Result E QueueResponse
  unfolding queue_query
  queue params =
      do_json (Unit {0}) QueueResponse Method.get (codes "/v1/schedule/queue")
        (some (queue_query params)) none no_queue_response

  unfoldable pub next_available : Result E Window
  next_available =
      do_json (Unit {0}) Window Method.get (codes "/v1/schedule/next-available") none none no_window
