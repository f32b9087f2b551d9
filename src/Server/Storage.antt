-- ===== src/Server/Storage.antt =====
-- internal/storage/s3.go. The AWS SDK, url.Parse, URL.String and path.Join are parameters.
use socialpublish.Prelude.{
  ℕ, ◌*◌, String, not, ◌&&◌, Option, none, some, List, [], ◌∷◌, ◌++◌, Bytes, codes, is_empty,
  str_eq, if◌then◌else◌, Result, ok, err,
}
use socialpublish.Webhook.Signature.{second}
use socialpublish.Store.Database.{Error, plain, wrap, named}
use socialpublish.Transport.Client.{trim_slashes}
use socialpublish.Server.Config.{S3Config}

-- What is asked of the AWS SDK for a client: static credentials if both parts are set, and the base
-- endpoint if there is one.
pub record ClientOptions : Type 0 where
  pub region : Bytes
  pub credentials : Option (Bytes × Bytes)
  pub base_endpoint : Option Bytes

pub record PutObject : Type 0 where
  pub bucket : Bytes
  pub key : Bytes
  pub content_type : Bytes
  pub expires : ℕ

-- The SDK: `connects` is LoadDefaultConfig with the making of the client.
pub record Aws : Type 0 where
  pub connects : ClientOptions → Result Error (Unit {0})
  pub presign : ClientOptions → PutObject → Result Error Bytes
  pub delete : ClientOptions → (bucket key : Bytes) → Result Error (Unit {0})

-- A URL in its parts that stand before the path, its path, and those behind it.
pub record Url : Type 0 where
  pub before : Bytes
  pub path : Bytes
  pub after : Bytes

pub record UrlLibrary : Type 0 where
  pub parse : Bytes → Result Error Url
  pub print : Url → Bytes
  pub join : List Bytes → Bytes

pub record S3Storage : Type 0 where
  pub cfg : S3Config
  pub client : ClientOptions

unfoldable pub client_options : S3Config → ClientOptions
client_options cfg = record {
  region = cfg.region;
  credentials =
      if not (is_empty cfg.access_key_id) && not (is_empty cfg.secret_access_key)
      then some (cfg.access_key_id, cfg.secret_access_key)
      else none;
  base_endpoint = if is_empty cfg.endpoint then none else some (trim_slashes cfg.endpoint);
}

module _ (aws : Aws) where
  unfoldable pub new_s3 : S3Config → Result Error S3Storage
  unfolding client_options
  new_s3 cfg =
      if is_empty cfg.bucket
      then err (plain "s3 bucket is required")
      else if is_empty cfg.region
      then err (plain "s3 region is required")
      else elim (aws.connects (client_options cfg)) [
        | err e ↦ err (wrap "load aws config" e)
        | ok _ ↦ ok (record { cfg = cfg; client = client_options cfg })
      ]

  -- The URL, and the headers that the upload needs.
  unfoldable pub presign_upload :
      S3Storage → (key content_type : Bytes) → Result Error (Bytes × List (String × Bytes))
  presign_upload s key content_type =
      if is_empty key
      then err (plain "presign upload: key is required")
      else elim (aws.presign s.client (record {
        bucket = s.cfg.bucket;
        key = key;
        content_type = content_type;
        expires = 15 * (60 * second);
      })) [
        | err e ↦ err (wrap "presign upload" e)
        | ok url ↦
            ok (url, if is_empty content_type then [] else ("Content-Type", content_type) ∷ [])
      ]

  unfoldable pub delete_object : S3Storage → (key : String) → Result Error (Unit {0})
  delete_object s key =
      if str_eq key ""
      then err (plain "delete object: key is required")
      else elim (aws.delete s.client s.cfg.bucket (codes key)) [
        | err e ↦ err (wrap (named "delete object " key "") e)
        | ok _ ↦ ok tt
      ]

module _ (urls : UrlLibrary) where
  unfoldable pub build_object_url : S3Config → (key : Bytes) → Result Error Bytes
  build_object_url cfg key =
      if is_empty cfg.endpoint
      then ok (
          codes "https://"
          ++ cfg.bucket
          ++ codes ".s3."
          ++ cfg.region
          ++ codes ".amazonaws.com/"
          ++ key)
      else elim (urls.parse (trim_slashes cfg.endpoint)) [
        | err e ↦ err (wrap "parse endpoint" e)
        | ok u ↦ ok (urls.print (record u { path = urls.join (u.path ∷ cfg.bucket ∷ key ∷ []) }))
      ]

  unfoldable pub public_url : S3Storage → (key : Bytes) → Result Error Bytes
  unfolding build_object_url
  public_url s key =
      if is_empty key then err (plain "public URL: key is required") else build_object_url s.cfg key
