-- ===== src/Repository.antt =====
-- internal/repository: what the repositories share.
pub mod Auth
pub mod Documents
use api_example.Prelude.{
  ℕ, zero, String, Bool, true, false, Option, none, some, str_eq, if◌then◌else◌,
}
use api_example.Errors.{Error, AppError, no_rows, is_sentinel, as_pg_error, wrap}
use api_example.Errors.Catalog.{err_auth_email_conflict}

abbrev is_unique_violation : Option String → Bool
is_unique_violation none = false
is_unique_violation (some code) = str_eq code "23505"

-- `mapRepositoryError`
unfoldable pub map_repository_error : Error → AppError → Error
map_repository_error e not_found =
    if is_sentinel e no_rows
    then wrap not_found e
    else if is_unique_violation (as_pg_error e)
    then wrap err_auth_email_conflict e
    else e

-- `timestamp`: the zero time where the column is NULL.
abbrev pub timestamp : Option ℕ → ℕ
timestamp none = zero
timestamp (some t) = t

-- `timestampPtr`
abbrev pub timestamp_ptr : Option ℕ → Option ℕ
timestamp_ptr none = none
timestamp_ptr (some t) = some t
