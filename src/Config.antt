-- ===== src/Config.antt =====
-- internal/config/config.go: the configuration, read off the environment and validated. The process's
-- environment is the state; .env files, time.ParseDuration, url.Parse and the errors of strconv are
-- parameters.
pub mod Check
pub mod Load
pub mod Read
pub mod Readers
pub mod Valid
use api_example.Prelude.{
  ℕ, ◌*◌, String, Bool, true, false, ◌||◌, ◌&&◌, not, Option, none, some, List, [], ◌∷◌, ◌++◌,
  reverse, if◌then◌else◌, ltb, length, ◌==◌,
}
use api_example.Prelude.Int.{ℤ, pos, leb_ℤ, ltb_ℤ}
use api_example.Text.{Text, text, text_eq, is_empty, trim_space, trim_left}
use api_example.Text.Numeral.{parse_int}
use api_example.Text.Path.{slash}
use api_example.Text.Segments.{split}
use api_example.Errors.{Error, plain, wrapped}
use api_example.Exec.{Result, ok, err, Exec, Done, return, fail, from_result, ◌>>=◌, ◌>>◌}
use api_example.Domain.Pagination.{to_int32}
use api_example.Storage.{valid_s3_prefix}

pub record AppConfig : Type 0 where
  pub name : Text
  pub environment : Text
  pub port : Text
  pub debug : Bool

pub record DatabaseConfig : Type 0 where
  pub host : Text
  pub port : ℤ
  pub user : Text
  pub password : Text
  pub database : Text
  pub ssl_mode : Text
  pub max_open_conns : ℤ
  pub max_idle_conns : ℤ
  pub conn_max_lifetime : ℤ

pub record RedisConfig : Type 0 where
  pub host : Text
  pub port : Text
  pub password : Text
  pub db : ℤ
  pub document_queue : Text
  pub processing_queue : Text
  pub dead_letter_queue : Text
  pub document_max_attempts : ℤ

-- A duration is in nanoseconds.
pub record JwtConfig : Type 0 where
  pub secret : Text
  pub issuer : Text
  pub audience : Text
  pub access_token_expiry : ℤ
  pub refresh_token_expiry : ℤ

pub record S3Config : Type 0 where
  pub region : Text
  pub bucket : Text
  pub prefix : Text
  pub endpoint : Text
  pub access_key_id : Text
  pub secret_access_key : Text
  pub use_path_style : Bool

pub record StorageConfig : Type 0 where
  pub driver : Text
  pub local_root : Text
  pub max_upload_bytes : ℤ
  pub allowed_media_types : List Text
  pub cdn_url : Text
  pub s3 : S3Config

pub record LoggingConfig : Type 0 where
  pub level : Text
  pub format : Text

-- `CORSConfig` is its list of origins.
pub record Config : Type 0 where
  pub app : AppConfig
  pub database : DatabaseConfig
  pub redis : RedisConfig
  pub jwt : JwtConfig
  pub storage : StorageConfig
  pub logging : LoggingConfig
  pub allowed_origins : List Text

-- What url.Parse finds in a text.
pub record Url : Type 0 where
  pub scheme : Text
  pub host : Text
  pub raw_query : Text
  pub fragment : Text

-- The names and the values of the environment.
abbrev pub Environ : Type 0
Environ = Text → Text

pub record Libraries : Type 0 where
  pub load_dotenv : Environ → Environ
  pub parse_bool : Text → Result Bool
  pub number_error : Text → Error
  pub parse_duration : Text → Option ℤ
  pub parse_url : Text → Option Url
