-- ===== src/Config/Check.antt =====
-- `Validate` of internal/config/config.go.
use api_example.Prelude.{Bool, ◌||◌, not, Option, none, some, if◌then◌else◌, ltb, length, ◌==◌}
use api_example.Prelude.Int.{pos, leb_ℤ, ltb_ℤ}
use api_example.Text.{Text, text, text_eq, is_empty, trim_space}
use api_example.Errors.{Error, plain}
use api_example.Storage.{valid_s3_prefix}
use api_example.Config.{StorageConfig, Config, Url, Libraries}

module _ (lib : Libraries) where
  abbrev is_http : Text → Bool
  is_http scheme = text_eq scheme (text "http") || text_eq scheme (text "https")

  abbrev accepted_url : Option Url → Option Error
  accepted_url none =
      some (plain (text "CDN_URL must be an absolute HTTP(S) URL without query or fragment"))
  accepted_url (some u) =
      if not (is_http u.scheme)
        || is_empty u.host
        || not (is_empty u.raw_query)
        || not (is_empty u.fragment)
      then some (plain (text "CDN_URL must be an absolute HTTP(S) URL without query or fragment"))
      else none

  -- `validateCDNURL`
  unfoldable pub validate_cdn_url : Text → Option Error
  validate_cdn_url value =
      if is_empty (trim_space value)
      then some (plain (text "CDN_URL must not be empty when STORAGE_DRIVER=s3"))
      else accepted_url (lib.parse_url value)

  -- The switch on the driver in `Validate`.
  unfoldable pub validate_storage : StorageConfig → Option Error
  validate_storage c =
      if text_eq c.driver (text "local")
      then if is_empty (trim_space c.local_root)
        then some (plain (text "STORAGE_LOCAL_ROOT must not be empty"))
        else none
      else if text_eq c.driver (text "s3")
      then if is_empty (trim_space c.s3.bucket)
        then some (plain (text "AWS_S3_BUCKET must not be empty"))
        else if not (valid_s3_prefix c.s3.prefix)
        then some (plain (text "AWS_S3_PREFIX must be a valid relative object key prefix"))
        else validate_cdn_url c.cdn_url
      else some (plain (text "STORAGE_DRIVER must be local or s3"))

  -- `Validate`
  unfoldable pub validate : Config → Option Error
  validate c =
      if ltb (length c.jwt.secret) 32
      then some (plain (text "JWT_SECRET must contain at least 32 characters"))
      else if leb_ℤ c.database.port (pos 0) || ltb_ℤ (pos 65535) c.database.port
      then some (plain (text "DB_PORT must be between 1 and 65535"))
      else if leb_ℤ c.database.max_open_conns (pos 0) || ltb_ℤ c.database.max_idle_conns (pos 0)
      then some (plain (text "database pool sizes are invalid"))
      else if leb_ℤ c.redis.document_max_attempts (pos 0)
      then some (plain (text "REDIS_DOCUMENT_MAX_ATTEMPTS must be positive"))
      else if leb_ℤ c.storage.max_upload_bytes (pos 0)
      then some (plain (text "STORAGE_MAX_UPLOAD_BYTES must be positive"))
      else if length c.storage.allowed_media_types == 0
      then some (plain (text "STORAGE_ALLOWED_MEDIA_TYPES must not be empty"))
      else validate_storage c.storage
