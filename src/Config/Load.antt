-- ===== src/Config/Load.antt =====
-- `Load` of internal/config/config.go.
use api_example.Prelude.{ℕ, ◌*◌, Bool, true, Option, none, some, List, [], ◌∷◌, ◌++◌, if◌then◌else◌}
use api_example.Prelude.Int.{ℤ, pos, leb_ℤ}
use api_example.Text.{Text, text, is_empty, trim_space, trim, trim_right}
use api_example.Text.Numeral.{parse_int}
use api_example.Text.Path.{slash}
use api_example.Text.Segments.{split}
use api_example.Errors.{Error, plain, wrapped}
use api_example.Exec.{Result, ok, err, Exec, return, fail, ◌>>=◌}
use api_example.Domain.Pagination.{to_int32}
use api_example.Config.{
  DatabaseConfig, RedisConfig, JwtConfig, S3Config, StorageConfig, Config, Environ, Libraries,
}
use api_example.Config.Check.{validate}

-- `env`
unfoldable pub env : Text → Text → Environ → Text
env key fallback e = let value = trim_space (e key) in if is_empty value then fallback else value

abbrev items : List Text → List Text
items [] = []
items (part ∷ parts) =
    let item = trim_space part in
    let rest = items parts in if is_empty item then rest else item ∷ rest

-- `envList`
unfoldable pub env_list : Text → List Text → Environ → List Text
env_list key fallback e =
    let value = trim_space (e key) in if is_empty value then fallback else items (split b',' value)

abbrev pub a_bool : Text → Result Bool → Exec Environ Bool
a_bool key (ok b) = return b
a_bool key (err e) = fail (wrapped (key ++ text " must be a boolean: ") e [])

abbrev pub a_duration : Text → Option ℤ → Exec Environ ℤ
a_duration key none = fail (plain (key ++ text " must be a positive duration"))
a_duration key (some d) =
    if leb_ℤ d (pos 0) then fail (plain (key ++ text " must be a positive duration")) else return d

-- The values that may fail, in the order in which `Load` reads them.
pub record Values : Type 0 where
  pub app_debug : Bool
  pub db_port : ℤ
  pub max_open : ℤ
  pub max_idle : ℤ
  pub conn_lifetime : ℤ
  pub redis_db : ℤ
  pub max_attempts : ℤ
  pub access_expiry : ℤ
  pub refresh_expiry : ℤ
  pub max_upload : ℤ
  pub path_style : Bool

abbrev s3_of : Values → Environ → S3Config
s3_of v e = record {
  region = env (text "AWS_REGION") (text "ap-southeast-1") e;
  bucket = e (text "AWS_S3_BUCKET");
  prefix = trim slash (trim_space (e (text "AWS_S3_PREFIX")));
  endpoint = e (text "S3_ENDPOINT");
  access_key_id = e (text "AWS_ACCESS_KEY_ID");
  secret_access_key = e (text "AWS_SECRET_ACCESS_KEY");
  use_path_style = v.path_style;
}

abbrev database_of : Values → Environ → DatabaseConfig
database_of v e = record {
  host = env (text "DB_HOST") (text "localhost") e;
  port = v.db_port;
  user = env (text "DB_USER") (text "postgres") e;
  password = env (text "DB_PASSWORD") (text "postgres") e;
  database = env (text "DB_NAME") (text "api_example") e;
  ssl_mode = env (text "DB_SSLMODE") (text "disable") e;
  max_open_conns = to_int32 v.max_open;
  max_idle_conns = to_int32 v.max_idle;
  conn_max_lifetime = v.conn_lifetime;
}

abbrev redis_of : Values → Environ → RedisConfig
redis_of v e = record {
  host = env (text "REDIS_HOST") (text "localhost") e;
  port = env (text "REDIS_PORT") (text "6379") e;
  password = e (text "REDIS_PASSWORD");
  db = v.redis_db;
  document_queue = env (text "REDIS_DOCUMENT_QUEUE") (text "api_example:documents") e;
  processing_queue =
      env (text "REDIS_DOCUMENT_PROCESSING_QUEUE") (text "api_example:documents:processing") e;
  dead_letter_queue =
      env (text "REDIS_DOCUMENT_DEAD_LETTER_QUEUE") (text "api_example:documents:dead") e;
  document_max_attempts = v.max_attempts;
}

abbrev jwt_of : Values → Environ → JwtConfig
jwt_of v e = record {
  secret = e (text "JWT_SECRET");
  issuer = env (text "JWT_ISSUER") (text "api-example") e;
  audience = env (text "JWT_AUDIENCE") (text "api-example-client") e;
  access_token_expiry = v.access_expiry;
  refresh_token_expiry = v.refresh_expiry;
}

abbrev default_media_types : List Text
default_media_types =
    text "application/pdf" ∷ text "image/jpeg" ∷ text "image/png" ∷ text "text/plain" ∷ []

abbrev storage_of : Values → Environ → StorageConfig
storage_of v e = record {
  driver = env (text "STORAGE_DRIVER") (text "local") e;
  local_root = env (text "STORAGE_LOCAL_ROOT") (text "./data") e;
  max_upload_bytes = v.max_upload;
  allowed_media_types = env_list (text "STORAGE_ALLOWED_MEDIA_TYPES") default_media_types e;
  cdn_url = trim_right slash (trim_space (e (text "CDN_URL")));
  s3 = s3_of v e;
}

-- The configuration that `Load` makes of the environment.
unfoldable pub config_of : Values → Environ → Config
config_of v e = record {
  app = record {
    name = env (text "APP_NAME") (text "api-example") e;
    environment = env (text "APP_ENV") (text "local") e;
    port = env (text "APP_PORT") (text "8080") e;
    debug = v.app_debug;
  };
  database = database_of v e;
  redis = redis_of v e;
  jwt = jwt_of v e;
  storage = storage_of v e;
  logging = record {
    level = env (text "LOG_LEVEL") (text "info") e;
    format = env (text "LOG_FORMAT") (text "colored_text") e;
  };
  allowed_origins = env_list (text "CORS_ALLOWED_ORIGINS") (text "http://localhost:3000" ∷ []) e;
}

abbrev pub seconds : ℕ → ℤ
seconds n = pos (n * 1000000000)

module _ (lib : Libraries) where
  -- `envBool`
  unfoldable pub env_bool : Text → Bool → Exec Environ Bool
  env_bool key fallback e =
      let value = trim_space (e key) in
      if is_empty value then (ok fallback, e) else a_bool key (lib.parse_bool value) e

  abbrev pub an_int : Text → Text → Option ℤ → Exec Environ ℤ
  an_int key value none =
      fail (wrapped (key ++ text " must be an integer: ") (lib.number_error value) [])
  an_int key value (some n) = return n

  -- `envInt` and `envInt64`, whose types are of 64 bits.
  unfoldable pub env_int : Text → ℤ → Exec Environ ℤ
  env_int key fallback e =
      let value = trim_space (e key) in
      if is_empty value then (ok fallback, e) else an_int key value (parse_int value) e

  -- `envDuration`
  unfoldable pub env_duration : Text → ℤ → Exec Environ ℤ
  env_duration key fallback e =
      let value = trim_space (e key) in
      let parsed = a_duration key (lib.parse_duration value) e in
      if is_empty value then (ok fallback, e) else parsed

  unfoldable pub read_values : Exec Environ Values
  read_values = do
    app_debug ← env_bool (text "APP_DEBUG") true
    db_port ← env_int (text "DB_PORT") (pos 5432)
    max_open ← env_int (text "DB_MAX_OPEN_CONNS") (pos 25)
    max_idle ← env_int (text "DB_MAX_IDLE_CONNS") (pos 5)
    conn_lifetime ← env_duration (text "DB_CONN_MAX_LIFETIME") (seconds 300)
    redis_db ← env_int (text "REDIS_DB") (pos 0)
    max_attempts ← env_int (text "REDIS_DOCUMENT_MAX_ATTEMPTS") (pos 3)
    access_expiry ← env_duration (text "JWT_ACCESS_TOKEN_EXPIRY") (seconds 28800)
    refresh_expiry ← env_duration (text "JWT_REFRESH_TOKEN_EXPIRY") (seconds 2592000)
    max_upload ← env_int (text "STORAGE_MAX_UPLOAD_BYTES") (pos 10485760)
    path_style ← env_bool (text "S3_USE_PATH_STYLE") true
    return (record {
      app_debug = app_debug;
      db_port = db_port;
      max_open = max_open;
      max_idle = max_idle;
      conn_lifetime = conn_lifetime;
      redis_db = redis_db;
      max_attempts = max_attempts;
      access_expiry = access_expiry;
      refresh_expiry = refresh_expiry;
      max_upload = max_upload;
      path_style = path_style;
    })

  abbrev pub validated : Config → Option Error → Result Config
  validated c none = ok c
  validated c (some e) = err e

  -- The configuration of these values and the environment, if it is valid.
  abbrev pub with_values : Values → Exec Environ Config
  with_values v e = (validated (config_of v e) (validate lib (config_of v e)), e)

  -- `Load`, after the .env file was read.
  abbrev pub load_environ : Exec Environ Config
  load_environ = do v ← read_values; with_values v

  -- `Load`
  unfoldable pub load : Exec Environ Config
  load e = load_environ (lib.load_dotenv e)
