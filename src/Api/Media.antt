-- ===== src/Api/Media.antt =====
-- internal/api/handler/media.go. The object storage is the parameter `storage`.
use Prim.Native.String.{◌++◌}
use socialpublish.Prelude.{
  ℕ, String, List, ◌||◌, Option, none, some, str_eq, if◌then◌else◌, Result, ℤ,
}
use socialpublish.Store.Database.{Env, Error, S, ◌>>=◌, ◌>>◌, on_result, outside}
use socialpublish.Store.Media
use socialpublish.Api.Http.{
  Response, empty, media_body, media_page, upload_body, status_body, write_json, write_error,
  internal_error,
}

-- internal/storage/storage.go, told which call to the outside it is. An upload has a URL and headers.
pub record ObjectStorage : Type 0 where
  pub presign_upload :
      ℕ → (key content_type : String) → Result Error (String × List (String × String))
  pub delete_object : ℕ → (key : String) → Result Error (Unit {0})

pub record UploadRequest : Type 0 where
  pub filename : String
  pub content_type : String
  pub media_type : String

module _ (env : Env) (storage : ObjectStorage) where
  upload_request : (workspace_id : String) → UploadRequest → S Response
  upload_request workspace_id req w =
      let key = "uploads/" ++ workspace_id ++ "/" ++ env.row_id w.calls "" ++ "/" ++ req.filename in
      (do
        created ←
            Media.create_media env workspace_id "uploading" req.media_type key req.content_type 0
        on_result created (internal_error env) λ media_id. do
          signed ← outside λ n. storage.presign_upload n key req.content_type
          on_result signed (internal_error env)
              λ (url, headers). write_json 201 (upload_body media_id url headers))
        w

  unfoldable pub upload : (workspace_id : String) → Option UploadRequest → S Response
  unfolding upload_request
  upload workspace_id none = write_error 400 "validation_error" "invalid request body"
  upload workspace_id (some req) =
      if str_eq req.filename "" || (str_eq req.content_type "" || str_eq req.media_type "")
      then write_error 400 "validation_error" "filename, content_type, and media_type required"
      else upload_request workspace_id req

  unfoldable pub list : (workspace_id : String) (limit : ℤ) (cursor : String) → S Response
  list workspace_id limit cursor = do
    listed ← Media.list_media env workspace_id limit cursor
    on_result listed (internal_error env) λ (items, next). write_json 200 (media_page items next)

  unfoldable pub get : (media_id : String) → S Response
  get media_id = do
    found ← Media.get_media env media_id
    on_result found (λ e. write_error 404 "not_found" "media not found")
        λ m. write_json 200 (media_body m)

  -- The outcome of the deletion of the object is not looked at.
  unfoldable pub delete : (media_id : String) → S Response
  delete media_id = do
    found ← Media.get_media env media_id
    on_result found (λ e. write_error 404 "not_found" "media not found")
        λ m. do
          outside (λ n. storage.delete_object n m.original_key)
          deleted ← Media.delete_media env media_id
          on_result deleted (internal_error env) λ _. write_json 204 empty

  -- The body is the thumbnail's key.
  unfoldable pub set_thumbnail : (media_id : String) → Option String → S Response
  set_thumbnail media_id none = write_error 400 "validation_error" "thumbnail_key required"
  set_thumbnail media_id (some key) =
      if str_eq key "" then write_error 400 "validation_error" "thumbnail_key required" else do
        updated ← Media.set_thumbnail env media_id key
        on_result updated (internal_error env) λ _. write_json 200 (status_body "updated")
