-- ===== src/Storage.antt =====
-- internal/storage: what the adapters share.
pub mod Key
pub mod Local
pub mod S3
use api_example.Prelude.{Bool, ◌||◌, ◌&&◌, not, Option, none, some, [], ◌∷◌, if◌then◌else◌}
use api_example.Text.{Text, text_eq, contains, has_prefix, is_empty}
use api_example.Text.Path.{slash, dot, dot_dot, is_abs, clean}
use api_example.Errors.{Error, app}
use api_example.Errors.Catalog.{err_storage_invalid_key}

abbrev pub backslash : Text
backslash = 92 ∷ []

abbrev pub double_slash : Text
double_slash = slash ∷ slash ∷ []

abbrev pub parent_prefix : Text
parent_prefix = b'.' ∷ b'.' ∷ slash ∷ []

-- The condition of `validateKey` in internal/storage/local.go.
unfoldable pub is_invalid_key : Text → Bool
is_invalid_key key =
    is_empty key
    || contains key backslash
    || contains key double_slash
    || is_abs key
    || not (text_eq (clean key) key)
    || text_eq key dot
    || has_prefix key parent_prefix

-- `validateKey`
unfoldable pub validate_key : Text → Option Error
unfolding is_invalid_key
validate_key key = if is_invalid_key key then some (app err_storage_invalid_key) else none

-- `validS3Prefix` of internal/config/config.go
unfoldable pub valid_s3_prefix : Text → Bool
valid_s3_prefix prefix =
    is_empty prefix
    || (not (contains prefix backslash)
        && not (contains prefix double_slash)
        && text_eq (clean prefix) prefix
        && not (text_eq prefix dot)
        && not (has_prefix prefix parent_prefix))
