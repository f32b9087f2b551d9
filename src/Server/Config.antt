-- ===== src/Server/Config.antt =====
-- internal/config/config.go. Texts are byte strings; os.Getenv, which gives the empty text for a
-- variable that is not set, is the parameter `getenv`.
use socialpublish.Prelude.{
  String, not, Option, none, some, Bytes, codes, is_empty, length, ◌==◌, ℤ, if◌then◌else◌, Result,
  ok, err,
}
use socialpublish.GoText.Decimal.{parse_int}
use socialpublish.Store.Database.{Error, failure, plain, wrap, named}

abbrev pub default_listen_addr : Bytes
default_listen_addr = codes "0.0.0.0:8080"

abbrev pub default_redis_addr : Bytes
default_redis_addr = codes "127.0.0.1:6379"

abbrev pub default_ffmpeg_bin : Bytes
default_ffmpeg_bin = codes "ffmpeg"

pub record S3Config : Type 0 where
  pub region : Bytes
  pub endpoint : Bytes
  pub bucket : Bytes
  pub access_key_id : Bytes
  pub secret_access_key : Bytes

pub record Config : Type 0 where
  pub listen_addr : Bytes
  pub database_url : Bytes
  pub redis_addr : Bytes
  pub ffmpeg_bin : Bytes
  pub token_encryption_key : Bytes
  pub s3 : S3Config

module _ (getenv : String → Bytes) where
  unfoldable pub get_env : (name : String) (fallback : Bytes) → Bytes
  get_env name fallback = if is_empty (getenv name) then fallback else getenv name

  unfoldable pub read_config : Config
  unfolding get_env
  read_config = record {
    listen_addr = get_env "LISTEN_ADDR" default_listen_addr;
    database_url = getenv "DATABASE_URL";
    redis_addr = get_env "REDIS_ADDR" default_redis_addr;
    ffmpeg_bin = get_env "FFMPEG_BIN" default_ffmpeg_bin;
    token_encryption_key = getenv "TOKEN_ENCRYPTION_KEY";
    s3 = record {
      region = getenv "S3_REGION";
      endpoint = getenv "S3_ENDPOINT";
      bucket = getenv "S3_BUCKET";
      access_key_id = getenv "S3_ACCESS_KEY_ID";
      secret_access_key = getenv "S3_SECRET_ACCESS_KEY";
    };
  }

  unfoldable pub load : Result Error Config
  unfolding read_config
  load =
      if is_empty read_config.database_url
      then err (plain "DATABASE_URL is required")
      else if not (length read_config.token_encryption_key == 32)
      then err (plain "TOKEN_ENCRYPTION_KEY is required and must be exactly 32 bytes")
      else ok read_config

  -- `parse_duration` is time.ParseDuration.
  unfoldable pub duration :
      (parse_duration : Bytes → Option ℤ) (name : String) (fallback : ℤ) → Result Error ℤ
  duration parse_duration name fallback =
      if is_empty (getenv name) then ok fallback else elim (parse_duration (getenv name)) [
        | none ↦ err (wrap (named "parse " name " duration") failure)
        | some d ↦ ok d
      ]

  unfoldable pub int : (name : String) (fallback : ℤ) → Result Error ℤ
  int name fallback =
      if is_empty (getenv name) then ok fallback else elim (parse_int (getenv name)) [
        | none ↦ err (wrap (named "parse " name " int") failure)
        | some i ↦ ok i
      ]
