-- ===== src/Sdk/Media.antt =====
-- sdk/services/media: types.go and service.go. The transport and url.PathEscape are parameters.
use socialpublish.Prelude.{
  ℤ, pos, String, Bool, false, Option, none, some, List, [], ◌∷◌, ◌++◌, Bytes, codes, Result,
}
use socialpublish.Store.Types.{Time}
use socialpublish.Store.Json.{Json, null}
use socialpublish.Pagination
use socialpublish.Sdk.Request.{Doer, Method, StringMap, set_limit, set_text}

pub record Asset : Type 0 where
  pub id : String
  pub status : String
  pub media_type : String
  pub original_key : String
  pub mime_type : String
  pub size_bytes : ℤ
  pub duration_ms : ℤ
  pub formats : Json
  pub thumbnail_key : String
  pub error_message : String
  pub created_at : Time
  pub updated_at : Time

abbrev pub no_asset : Asset
no_asset = record {
  id = "";
  status = "";
  media_type = "";
  original_key = "";
  mime_type = "";
  size_bytes = pos 0;
  duration_ms = pos 0;
  formats = null;
  thumbnail_key = "";
  error_message = "";
  created_at = 0;
  updated_at = 0;
}

pub record UploadRequest : Type 0 where
  pub file_name : String
  pub mime_type : String
  pub size_bytes : ℤ
  pub media_type : String

pub record UploadResponse : Type 0 where
  pub media_id : String
  pub upload_url : String
  pub headers : StringMap

abbrev pub no_upload_response : UploadResponse
no_upload_response = record { media_id = ""; upload_url = ""; headers = [] }

pub record ListParams : Type 0 where
  pub limit : ℤ
  pub cursor : String
  pub status : String
  pub type : String

pub record Page : Type 0 where
  pub items : List Asset
  pub next_cursor : String
  pub has_more : Bool
  pub total : ℤ

abbrev pub no_page : Page
no_page = record { items = []; next_cursor = ""; has_more = false; total = pos 0 }

-- GetItems, GetNextCursor and GetHasMore, as the iterator asks for them.
abbrev pub pager : Page → Pagination.Page Asset
pager p = record { items = p.items; next_cursor = p.next_cursor; has_more = p.has_more }

unfoldable pub list_query : Option ListParams → StringMap
list_query none = []
list_query (some params) =
    set_text "type" params.type (
      set_text "status" params.status (set_text "cursor" params.cursor (set_limit params.limit [])))

module _ {E : Type 0} (do_json : (B Out : Type 0) → Doer E B Out) (escape : Bytes → Bytes) where
  unfoldable pub create_upload : UploadRequest → Result E UploadResponse
  create_upload req =
      do_json UploadRequest UploadResponse Method.post (codes "/v1/media/upload") none (some req)
        no_upload_response

  unfoldable pub get : (media_id : Bytes) → Result E Asset
  get media_id =
      do_json (Unit {0}) Asset Method.get (codes "/v1/media/" ++ escape media_id) none none no_asset

  unfoldable pub list : Option ListParams → Result E Page
  unfolding list_query
  list params =
      do_json (Unit {0}) Page Method.get (codes "/v1/media") (some (list_query params)) none no_page

  unfoldable pub delete : (media_id : Bytes) → Result E (Unit {0})
  delete media_id =
      do_json (Unit {0}) (Unit {0}) Method.delete (codes "/v1/media/" ++ escape media_id) none none
        tt

  unfoldable pub set_thumbnail : (media_id : Bytes) → (key : String) → Result E Asset
  set_thumbnail media_id key =
      do_json StringMap Asset Method.post
        (codes "/v1/media/" ++ escape media_id ++ codes "/thumbnail") none
        (some (("thumbnail_key", key) ∷ [])) no_asset
