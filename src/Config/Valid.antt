-- ===== src/Config/Valid.antt =====
-- What a configuration that was loaded promises to the other parts.
use mathlib.Core.Path.{subst}
use api_example.Prelude.{
  ◌≤◌, ◌≡◌, refl, sym, ap, ◌∙◌, ◌≢◌, ◌⊎◌, inl, inr, true, false, Option, none, some, [], arith,
  length, Bool-cases,
}
use api_example.Prelude.Int.{pos, ◌≤ℤ◌}
use api_example.Text.{text, text_eq, text_eq_iff, is_empty, trim_space}
use api_example.Errors.{Error}
use api_example.Exec.{Result, ok}
use api_example.Exec.Rules.{bind-inverts}
use api_example.Storage.{valid_s3_prefix}
use api_example.Config.{Config, StorageConfig, Environ, Libraries}
use api_example.Config.Check.{validate, validate_storage, validate_cdn_url}
use api_example.Config.Read.{IsRead, read_values-IsRead}
use api_example.Config.Load.{read_values, config_of, load, with_values, validated}

-- The storage that a configuration names.
abbrev IsStorage : Libraries → StorageConfig → Type 0
IsStorage lib c =
    ((c.driver ≡ text "local") × (is_empty (trim_space c.local_root) ≡ false))
    ⊎ ((c.driver ≡ text "s3")
        × (is_empty (trim_space c.s3.bucket) ≡ false)
        × (valid_s3_prefix c.s3.prefix ≡ true)
        × (validate_cdn_url lib c.cdn_url ≡ none))

-- What the other parts rely on.
pub record IsValid (lib : Libraries) (c : Config) : Type 0 where
  pub secret : 32 ≤ length c.jwt.secret
  pub port : (pos 1 ≤ℤ c.database.port) × (c.database.port ≤ℤ pos 65535)
  pub pool : (pos 1 ≤ℤ c.database.max_open_conns) × (pos 0 ≤ℤ c.database.max_idle_conns)
  pub attempts : pos 1 ≤ℤ c.redis.document_max_attempts
  pub upload : pos 1 ≤ℤ c.storage.max_upload_bytes
  pub media_types : c.storage.allowed_media_types ≢ []
  pub storage : IsStorage lib c.storage

module _ (lib : Libraries) where
  validate_storage-IsStorage : (c : StorageConfig) → validate_storage lib c ≡ none → IsStorage lib c
  unfolding validate_storage
  validate_storage-IsStorage c h = elim (Bool-cases (text_eq c.driver (text "local"))) [
    | inl here ↦ inl ((text_eq_iff c.driver (text "local")).0 here, ground arith)
    | inr elsewhere ↦ elim (Bool-cases (text_eq c.driver (text "s3"))) [
      | inl s3 ↦
          inr ((text_eq_iff c.driver (text "s3")).0 s3, ground arith, ground arith, ground arith)
      | inr neither ↦ absurd (ground arith)
    ]
  ]

  validate-IsValid : (c : Config) → validate lib c ≡ none → IsValid lib c
  unfolding validate
  validate-IsValid c h = record {
    secret = ground arith;
    port = (ground arith, ground arith);
    pool = (ground arith, ground arith);
    attempts = ground arith;
    upload = ground arith;
    media_types = λ e. ground (arith, e);
    storage = validate_storage-IsStorage c.storage (ground arith);
  }

  validated-ok :
      (c c' : Config) (o : Option Error) → validated lib c o ≡ ok c' → (o ≡ none) × (c' ≡ c)
  validated-ok c c' none h = (refl, cc)
  validated-ok c c' (some e) h = absurd cc

  -- A configuration that `Load` returns is valid: the secret of the tokens has at least 32 bytes; the
  -- port is one; the pool has a connection; a job is tried and a byte may be uploaded at least once; a
  -- media type is allowed; and the storage is a directory with a name, or a bucket with a prefix and an
  -- address that are accepted. Each of its numbers, durations and Booleans is the value that its own
  -- variable parses to after the .env file was read, or its default if that variable is blank; the
  -- sizes of the pool are cut to 32 bits; and the secret is its variable as it stands.
  pub load-IsValid :
      (e e' : Environ) (c : Config)
      → load lib e ≡ (ok c, e')
      → IsValid lib c × IsRead lib e' c × (e' ≡ lib.load_dotenv e)
  unfolding load
  load-IsValid e e' c h =
      let (v, w, read, made) =
        bind-inverts (read_values lib) (with_values lib) (lib.load_dotenv e) e' c h in
      let (accepted, is) =
        validated-ok (config_of v w) c (validate lib (config_of v w))
          (ap (λ (p : Result Config × Environ). p.0) made) in
      let (as_read, stays) = read_values-IsRead lib (lib.load_dotenv e) w v read in
      let here : w ≡ e' = ap (λ (p : Result Config × Environ). p.1) made in
      (
        subst (IsValid lib) (sym is) (validate-IsValid (config_of v w) accepted),
        subst (λ x. IsRead lib x c) here
            (subst (IsRead lib w) (sym is) (
              subst (λ x. IsRead lib x (config_of v w)) (sym stays)
                (subst (λ x. IsRead lib (lib.load_dotenv e) (config_of v x)) (sym stays) as_read))),
        sym here ∙ stays,
      )
