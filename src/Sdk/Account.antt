-- ===== src/Sdk/Account.antt =====
-- sdk/services/account: types.go and service.go. The transport and url.PathEscape are parameters.
use socialpublish.Prelude.{
  ℤ, pos, String, Bool, false, Option, none, some, List, [], ◌++◌, Bytes, codes, Result,
}
use socialpublish.Store.Types.{Time}
use socialpublish.Pagination
use socialpublish.Sdk.Request.{Doer, Method, StringMap, set_limit, set_text}

pub record Account : Type 0 where
  pub id : String
  pub platform : String
  pub platform_user_id : String
  pub display_name : String
  pub avatar_url : String
  pub token_expires_at : Time
  pub token_healthy : Bool
  pub created_at : Time
  pub updated_at : Time

abbrev pub no_account : Account
no_account = record {
  id = "";
  platform = "";
  platform_user_id = "";
  display_name = "";
  avatar_url = "";
  token_expires_at = 0;
  token_healthy = false;
  created_at = 0;
  updated_at = 0;
}

pub record ConnectRequest : Type 0 where
  pub platform : String
  pub oauth_code : String
  pub redirect_uri : String
  pub refresh_token : String

pub record ConnectResponse : Type 0 where
  pub account : Option Account

abbrev pub no_connect_response : ConnectResponse
no_connect_response = record { account = none }

pub record ListParams : Type 0 where
  pub limit : ℤ
  pub cursor : String
  pub platform : String

pub record Page : Type 0 where
  pub items : List Account
  pub next_cursor : String
  pub has_more : Bool
  pub total : ℤ

abbrev pub no_page : Page
no_page = record { items = []; next_cursor = ""; has_more = false; total = pos 0 }

-- GetItems, GetNextCursor and GetHasMore, as the iterator asks for them.
abbrev pub pager : Page → Pagination.Page Account
pager p = record { items = p.items; next_cursor = p.next_cursor; has_more = p.has_more }

unfoldable pub list_query : Option ListParams → StringMap
list_query none = []
list_query (some params) =
    set_text "platform" params.platform
      (set_text "cursor" params.cursor (set_limit params.limit []))

module _ {E : Type 0} (do_json : (B Out : Type 0) → Doer E B Out) (escape : Bytes → Bytes) where
  unfoldable pub connect : ConnectRequest → Result E ConnectResponse
  connect req =
      do_json ConnectRequest ConnectResponse Method.post (codes "/v1/accounts/connect") none
        (some req) no_connect_response

  unfoldable pub get : (account_id : Bytes) → Result E Account
  get account_id =
      do_json (Unit {0}) Account Method.get (codes "/v1/accounts/" ++ escape account_id) none none
        no_account

  unfoldable pub list : Option ListParams → Result E Page
  unfolding list_query
  list params =
      do_json (Unit {0}) Page Method.get (codes "/v1/accounts") (some (list_query params)) none
        no_page

  unfoldable pub delete : (account_id : Bytes) → Result E (Unit {0})
  delete account_id =
      do_json (Unit {0}) (Unit {0}) Method.delete (codes "/v1/accounts/" ++ escape account_id) none
        none tt

  unfoldable pub status : (account_id : Bytes) → Result E Account
  status account_id =
      do_json (Unit {0}) Account Method.get
        (codes "/v1/accounts/" ++ escape account_id ++ codes "/status") none none no_account
