-- ===== src/Config/Read.antt =====
-- Which variable each number, duration and Boolean of a loaded configuration is read off.
use api_example.Prelude.{◌≡◌, refl, sym, ap, Bool, true}
use mathlib.Core.Path.{subst}
use api_example.Prelude.Int.{ℤ, pos}
use api_example.Text.{text}
use api_example.Exec.{Result, ok, Exec, return, ◌>>=◌}
use api_example.Domain.Pagination.{to_int32}
use api_example.Config.{Config, Environ, Libraries}
use api_example.Config.Load.{
  Values, read_values, config_of, env_bool, env_int, env_duration, seconds,
}
use api_example.Config.Readers.{
  IsReadAs, IntText, BoolText, DurationText, ok_value, then_bool, then_int, then_duration,
}

-- Each number, duration and Boolean of a configuration is read off its own variable, or is its default;
-- the sizes of the pool are cut to 32 bits. The secret of the tokens is its variable as it stands.
pub record IsRead (lib : Libraries) (e : Environ) (c : Config) : Type 0 where
  pub debug : IsReadAs (BoolText lib) e (text "APP_DEBUG") true c.app.debug
  pub port : IsReadAs IntText e (text "DB_PORT") (pos 5432) c.database.port
  pub max_open :
      (n : ℤ) × IsReadAs IntText e (text "DB_MAX_OPEN_CONNS") (pos 25) n
      × (c.database.max_open_conns ≡ to_int32 n)
  pub max_idle :
      (n : ℤ) × IsReadAs IntText e (text "DB_MAX_IDLE_CONNS") (pos 5) n
      × (c.database.max_idle_conns ≡ to_int32 n)
  pub lifetime :
      IsReadAs
        (DurationText lib)
        e
        (text "DB_CONN_MAX_LIFETIME")
        (seconds 300)
        c.database.conn_max_lifetime
  pub redis_db : IsReadAs IntText e (text "REDIS_DB") (pos 0) c.redis.db
  pub attempts :
      IsReadAs IntText e (text "REDIS_DOCUMENT_MAX_ATTEMPTS") (pos 3) c.redis.document_max_attempts
  pub access_expiry :
      IsReadAs
        (DurationText lib)
        e
        (text "JWT_ACCESS_TOKEN_EXPIRY")
        (seconds 28800)
        c.jwt.access_token_expiry
  pub refresh_expiry :
      IsReadAs
        (DurationText lib)
        e
        (text "JWT_REFRESH_TOKEN_EXPIRY")
        (seconds 2592000)
        c.jwt.refresh_token_expiry
  pub upload :
      IsReadAs IntText e (text "STORAGE_MAX_UPLOAD_BYTES") (pos 10485760) c.storage.max_upload_bytes
  pub path_style :
      IsReadAs (BoolText lib) e (text "S3_USE_PATH_STYLE") true c.storage.s3.use_path_style
  pub secret : c.jwt.secret ≡ e (text "JWT_SECRET")

module _ (lib : Libraries) where
  -- The readers of `Load`, from the last one.
  abbrev after_path_style : Bool → ℤ → ℤ → ℤ → ℤ → ℤ → ℤ → ℤ → ℤ → ℤ → Bool → Exec Environ Values
  after_path_style app_debug db_port max_open max_idle conn_lifetime redis_db max_attempts
        access_expiry refresh_expiry max_upload path_style =
      return (record {
        app_debug = app_debug;
        db_port = db_port;
        max_open = max_open;
        max_idle = max_idle;
        conn_lifetime = conn_lifetime;
        redis_db = redis_db;
        max_attempts = max_attempts;
        access_expiry = access_expiry;
        refresh_expiry = refresh_expiry;
        max_upload = max_upload;
        path_style = path_style;
      })

  abbrev after_max_upload : Bool → ℤ → ℤ → ℤ → ℤ → ℤ → ℤ → ℤ → ℤ → ℤ → Exec Environ Values
  after_max_upload app_debug db_port max_open max_idle conn_lifetime redis_db max_attempts
        access_expiry refresh_expiry max_upload =
      env_bool lib (text "S3_USE_PATH_STYLE") true
      >>= after_path_style app_debug db_port max_open max_idle conn_lifetime redis_db max_attempts
          access_expiry refresh_expiry max_upload

  abbrev after_refresh_expiry : Bool → ℤ → ℤ → ℤ → ℤ → ℤ → ℤ → ℤ → ℤ → Exec Environ Values
  after_refresh_expiry app_debug db_port max_open max_idle conn_lifetime redis_db max_attempts
        access_expiry refresh_expiry =
      env_int lib (text "STORAGE_MAX_UPLOAD_BYTES") (pos 10485760)
      >>= after_max_upload app_debug db_port max_open max_idle conn_lifetime redis_db max_attempts
          access_expiry refresh_expiry

  abbrev after_access_expiry : Bool → ℤ → ℤ → ℤ → ℤ → ℤ → ℤ → ℤ → Exec Environ Values
  after_access_expiry app_debug db_port max_open max_idle conn_lifetime redis_db max_attempts
        access_expiry =
      env_duration lib (text "JWT_REFRESH_TOKEN_EXPIRY") (seconds 2592000)
      >>= after_refresh_expiry app_debug db_port max_open max_idle conn_lifetime redis_db
          max_attempts access_expiry

  abbrev after_max_attempts : Bool → ℤ → ℤ → ℤ → ℤ → ℤ → ℤ → Exec Environ Values
  after_max_attempts app_debug db_port max_open max_idle conn_lifetime redis_db max_attempts =
      env_duration lib (text "JWT_ACCESS_TOKEN_EXPIRY") (seconds 28800)
      >>= after_access_expiry app_debug db_port max_open max_idle conn_lifetime redis_db
          max_attempts

  abbrev after_redis_db : Bool → ℤ → ℤ → ℤ → ℤ → ℤ → Exec Environ Values
  after_redis_db app_debug db_port max_open max_idle conn_lifetime redis_db =
      env_int lib (text "REDIS_DOCUMENT_MAX_ATTEMPTS") (pos 3)
      >>= after_max_attempts app_debug db_port max_open max_idle conn_lifetime redis_db

  abbrev after_conn_lifetime : Bool → ℤ → ℤ → ℤ → ℤ → Exec Environ Values
  after_conn_lifetime app_debug db_port max_open max_idle conn_lifetime =
      env_int lib (text "REDIS_DB") (pos 0)
      >>= after_redis_db app_debug db_port max_open max_idle conn_lifetime

  abbrev after_max_idle : Bool → ℤ → ℤ → ℤ → Exec Environ Values
  after_max_idle app_debug db_port max_open max_idle =
      env_duration lib (text "DB_CONN_MAX_LIFETIME") (seconds 300)
      >>= after_conn_lifetime app_debug db_port max_open max_idle

  abbrev after_max_open : Bool → ℤ → ℤ → Exec Environ Values
  after_max_open app_debug db_port max_open =
      env_int lib (text "DB_MAX_IDLE_CONNS") (pos 5) >>= after_max_idle app_debug db_port max_open

  abbrev after_db_port : Bool → ℤ → Exec Environ Values
  after_db_port app_debug db_port =
      env_int lib (text "DB_MAX_OPEN_CONNS") (pos 25) >>= after_max_open app_debug db_port

  abbrev after_app_debug : Bool → Exec Environ Values
  after_app_debug app_debug = env_int lib (text "DB_PORT") (pos 5432) >>= after_db_port app_debug

  pub read_values-IsRead :
      (e e' : Environ) (v : Values)
      → read_values lib e ≡ (ok v, e')
      → IsRead lib e (config_of v e) × (e' ≡ e)
  unfolding read_values config_of
  read_values-IsRead e e' v h0 =
      let (app_debug, p1, h1) = then_bool lib (text "APP_DEBUG") true after_app_debug e e' v h0 in
      let (db_port, p2, h2) =
        then_int lib (text "DB_PORT") (pos 5432) (after_db_port app_debug) e e' v h1 in
      let (max_open, p3, h3) =
        then_int lib (text "DB_MAX_OPEN_CONNS") (pos 25) (after_max_open app_debug db_port) e e' v
          h2 in
      let (max_idle, p4, h4) =
        then_int lib (text "DB_MAX_IDLE_CONNS") (pos 5) (after_max_idle app_debug db_port max_open)
          e e' v h3 in
      let (conn_lifetime, p5, h5) =
        then_duration lib (text "DB_CONN_MAX_LIFETIME") (seconds 300)
          (after_conn_lifetime app_debug db_port max_open max_idle) e e' v h4 in
      let (redis_db, p6, h6) =
        then_int lib (text "REDIS_DB") (pos 0)
          (after_redis_db app_debug db_port max_open max_idle conn_lifetime) e e' v h5 in
      let (max_attempts, p7, h7) =
        then_int lib (text "REDIS_DOCUMENT_MAX_ATTEMPTS") (pos 3)
          (after_max_attempts app_debug db_port max_open max_idle conn_lifetime redis_db) e e' v
          h6 in
      let (access_expiry, p8, h8) =
        then_duration lib (text "JWT_ACCESS_TOKEN_EXPIRY") (seconds 28800)
          (after_access_expiry app_debug db_port max_open max_idle conn_lifetime redis_db
            max_attempts)
          e e' v h7 in
      let (refresh_expiry, p9, h9) =
        then_duration lib (text "JWT_REFRESH_TOKEN_EXPIRY") (seconds 2592000)
          (after_refresh_expiry app_debug db_port max_open max_idle conn_lifetime redis_db
            max_attempts access_expiry)
          e e' v h8 in
      let (max_upload, p10, h10) =
        then_int lib (text "STORAGE_MAX_UPLOAD_BYTES") (pos 10485760)
          (after_max_upload app_debug db_port max_open max_idle conn_lifetime redis_db max_attempts
            access_expiry refresh_expiry)
          e e' v h9 in
      let (path_style, p11, h11) =
        then_bool lib (text "S3_USE_PATH_STYLE") true
          (after_path_style app_debug db_port max_open max_idle conn_lifetime redis_db max_attempts
            access_expiry refresh_expiry max_upload)
          e e' v h10 in
      let is = ap (λ (p : Result Values × Environ). p.0) h11 in
      (
        subst (λ u. IsRead lib e (config_of u e)) (ok_value is)
            (record {
              debug = p1;
              port = p2;
              max_open = (max_open, p3, refl);
              max_idle = (max_idle, p4, refl);
              lifetime = p5;
              redis_db = p6;
              attempts = p7;
              access_expiry = p8;
              refresh_expiry = p9;
              upload = p10;
              path_style = p11;
              secret = refl;
            }),
        sym (ap (λ (p : Result Values × Environ). p.1) h11),
      )
