-- ===== src/Errors.antt =====
-- pkg/errors/errors.go: application errors, and the chains that errors.Is, errors.As and the verb %w
-- of fmt.Errorf build and search.
pub mod Catalog
use api_example.Prelude.{str_eq}
use api_example.Prelude.{
  ℕ, String, Bool, true, false, ◌||◌, Option, none, some, ◌++◌, if◌then◌else◌,
}
use api_example.Text.{Text, text}

-- `AppError` without its cause, which stands in the chain.
pub record AppError : Type 0 where
  pub code : String
  pub message : Text
  pub status : ℕ
  pub retryable : Bool

-- The values that the program compares by identity.
pub data Sentinel : Type 0 where
  no_rows upload_too_large eof canceled not_exist server_closed : Sentinel

abbrev pub same_sentinel : Sentinel → Sentinel → Bool
same_sentinel no_rows no_rows = true
same_sentinel upload_too_large upload_too_large = true
same_sentinel eof eof = true
same_sentinel canceled canceled = true
same_sentinel not_exist not_exist = true
same_sentinel server_closed server_closed = true
same_sentinel _ _ = false

-- An error value that is not nil.
pub data Error : Type 0 where
  -- an `AppError` with no cause, and with one
  app : AppError → Error
  caused : AppError → Error → Error
  -- errors.New, fmt.Errorf without %w, and the errors of libraries
  plain : Text → Error
  -- fmt.Errorf with one %w: the text before it, the error, the text after it
  wrapped : Text → Error → Text → Error
  -- errors.Join of two errors
  joined : Error → Error → Error
  sentinel : Sentinel → Error
  -- *pgconn.PgError, by its SQLSTATE code
  pg_error : String → Error

abbrev sentinel_text : Sentinel → Text
sentinel_text no_rows = text "no rows in result set"
sentinel_text upload_too_large = text "upload exceeds maximum size"
sentinel_text eof = text "EOF"
sentinel_text canceled = text "context canceled"
sentinel_text not_exist = text "file does not exist"
sentinel_text server_closed = text "http: Server closed"

-- The method Error of each error; `pg_text` gives the text of a PgError by its code.
unfoldable pub error_text : (String → Text) → Error → Text
error_text pg_text (app a) = a.message
error_text pg_text (caused a e) = a.message ++ (text ": " ++ error_text pg_text e)
error_text pg_text (plain t) = t
error_text pg_text (wrapped before e after) = before ++ (error_text pg_text e ++ after)
error_text pg_text (joined e d) = error_text pg_text e ++ (text "\n" ++ error_text pg_text d)
error_text pg_text (sentinel s) = sentinel_text s
error_text pg_text (pg_error code) = pg_text code

-- errors.Is at an `AppError`: its method Is compares the codes along the chain.
unfoldable pub is_app : Error → AppError → Bool
is_app (app a) target = str_eq a.code target.code
is_app (caused a e) target = str_eq a.code target.code || is_app e target
is_app (plain t) target = false
is_app (wrapped before e after) target = is_app e target
is_app (joined e d) target = is_app e target || is_app d target
is_app (sentinel s) target = false
is_app (pg_error code) target = false

-- errors.Is at a sentinel.
unfoldable pub is_sentinel : Error → Sentinel → Bool
is_sentinel (app a) target = false
is_sentinel (caused a e) target = is_sentinel e target
is_sentinel (plain t) target = false
is_sentinel (wrapped before e after) target = is_sentinel e target
is_sentinel (joined e d) target = is_sentinel e target || is_sentinel d target
is_sentinel (sentinel s) target = same_sentinel s target
is_sentinel (pg_error code) target = false

abbrev or_else {ℓ} : {A : Type ℓ} → Option A → Option A → Option A
or_else none o = o
or_else (some a) o = some a

-- errors.As at *pgconn.PgError: the code of the first one in the chain.
unfoldable pub as_pg_error : Error → Option String
as_pg_error (app a) = none
as_pg_error (caused a e) = as_pg_error e
as_pg_error (plain t) = none
as_pg_error (wrapped before e after) = as_pg_error e
as_pg_error (joined e d) = or_else (as_pg_error e) (as_pg_error d)
as_pg_error (sentinel s) = none
as_pg_error (pg_error code) = some code

-- errors.As at *AppError: the first one in the chain.
unfoldable pub find_app : Error → Option AppError
find_app (app a) = some a
find_app (caused a e) = some a
find_app (plain t) = none
find_app (wrapped before e after) = find_app e
find_app (joined e d) = or_else (find_app e) (find_app d)
find_app (sentinel s) = none
find_app (pg_error code) = none

-- `Wrap`, at a cause that is not nil.
abbrev pub wrap : AppError → Error → Error
wrap base cause = caused base cause

-- `WithMessage`
abbrev pub with_message : AppError → Text → Error
with_message base message = app (record base { message = message })
