-- ===== src/Sdk/Posts.antt =====
-- sdk/services/post/service.go, with the types of its answers from types.go. The transport,
-- url.PathEscape and Time.Format are parameters.
use socialpublish.Prelude.{
  ℤ, pos, String, Bool, false, Option, none, some, List, [], ◌++◌, Bytes, codes, Result,
}
use socialpublish.Store.Types.{Time}
use socialpublish.Pagination
use socialpublish.Sdk.Request.{Doer, Method, StringMap, set_limit, set_text, set_time}
use socialpublish.Sdk.Post.{Post, Target, CreateRequest, ListParams}

pub record UpdateRequest : Type 0 where
  pub media_ids : List String
  pub targets : List Target
  pub scheduled_at : Option Time
  pub metadata : StringMap

pub record Page : Type 0 where
  pub items : List Post
  pub next_cursor : String
  pub has_more : Bool
  pub total : ℤ

abbrev pub no_page : Page
no_page = record { items = []; next_cursor = ""; has_more = false; total = pos 0 }

-- GetItems, GetNextCursor and GetHasMore, as the iterator asks for them.
abbrev pub pager : Page → Pagination.Page Post
pager p = record { items = p.items; next_cursor = p.next_cursor; has_more = p.has_more }

abbrev pub no_post : Post
no_post = record {
  id = "";
  status = "";
  media_ids = [];
  targets = [];
  scheduled_at = none;
  published_at = none;
  metadata = [];
  created_at = 0;
  updated_at = 0;
}

module _ {E : Type 0} (do_json : (B Out : Type 0) → Doer E B Out) (escape : Bytes → Bytes)
    (format : Time → String) where
  unfoldable pub create : CreateRequest → Result E Post
  create req = do_json CreateRequest Post Method.post (codes "/v1/posts") none (some req) no_post

  unfoldable pub get : (post_id : Bytes) → Result E Post
  get post_id =
      do_json (Unit {0}) Post Method.get (codes "/v1/posts/" ++ escape post_id) none none no_post

  unfoldable pub list_query : Option ListParams → StringMap
  list_query none = []
  list_query (some params) = set_time format "to" params.to (
      set_time format "from" params.from (
        set_text "platform" params.platform (
          set_text "status" params.status
            (set_text "cursor" params.cursor (set_limit params.limit [])))))

  unfoldable pub list : Option ListParams → Result E Page
  unfolding list_query
  list params =
      do_json (Unit {0}) Page Method.get (codes "/v1/posts") (some (list_query params)) none no_page

  unfoldable pub update : (post_id : Bytes) → UpdateRequest → Result E Post
  update post_id req =
      do_json UpdateRequest Post Method.patch (codes "/v1/posts/" ++ escape post_id) none (some req)
        no_post

  unfoldable pub delete : (post_id : Bytes) → Result E (Unit {0})
  delete post_id =
      do_json (Unit {0}) (Unit {0}) Method.delete (codes "/v1/posts/" ++ escape post_id) none none
        tt

  unfoldable pub publish : (post_id : Bytes) → Result E Post
  publish post_id =
      do_json (Unit {0}) Post Method.post (codes "/v1/posts/" ++ escape post_id ++ codes "/publish")
        none none no_post

  unfoldable pub cancel : (post_id : Bytes) → Result E Post
  cancel post_id =
      do_json (Unit {0}) Post Method.post (codes "/v1/posts/" ++ escape post_id ++ codes "/cancel")
        none none no_post
