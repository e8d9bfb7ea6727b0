-- ===== src/Accounts.antt =====
-- internal/service/auth_service.go: `AuthService`.
pub mod Once
pub mod Passing
pub mod Spent
use api_example.Prelude.{
  ℕ, String, Bool, true, false, not, ◌||◌, Option, none, some, List, [], ◌++◌, ltb, if◌then◌else◌,
  length,
}
use api_example.Prelude.Int.{ℤ, pos}
use api_example.Text.{Text, text, text_eq, trim_space}
use api_example.Text.Hex.{hex}
use api_example.Errors.{Error, AppError, app, wrapped, with_message, is_app}
use api_example.Errors.Catalog.{
  err_auth_invalid_request, err_auth_invalid_credentials, err_auth_invalid_refresh,
  err_auth_user_not_found,
}
use api_example.Exec.{
  Result, ok, err, Exec, Done, return, fail, attempt, fail_if, from_result, ◌>>=◌, ◌>>◌,
}
use api_example.Domain.{User, RefreshSession, role_user}
use api_example.Ports.{AuthRepository}
use api_example.Tokens.{
  JwtManager, TokenPair, Claims, Passwords, generate_token_pair, validate_refresh_token, clock,
}
use api_example.Validator.{Mail}
use api_example.Validator

-- `RegisterInput` and `LoginInput`
pub record Credentials : Type 0 where
  pub email : Text
  pub password : Text

pub record AuthResult : Type 0 where
  pub user : User
  pub tokens : TokenPair

-- `AuthService`; `sha256` is the hash function, and `error_message` the method Error.
pub record AuthService (W : Type 0) : Type 0 where
  pub repository : AuthRepository W
  pub jwt : JwtManager W
  pub passwords : Passwords W
  pub mail : Mail
  pub sha256 : List ℕ → List ℕ
  pub error_message : Error → Text

-- `publicUser`
unfoldable pub public_user : User → User
public_user user = record user { password_hash = [] }

abbrev is_some {ℓ} : {A : Type ℓ} → Option A → Bool
is_some none = false
is_some (some a) = true

-- !user.IsActive || user.DeletedAt != nil
abbrev pub is_closed : User → Bool
is_closed user = not user.is_active || is_some user.deleted_at

-- claims.ExpiresAt.Time: a token of the manager has an expiry.
abbrev expiry : Option ℕ → ℕ
expiry none = 0
expiry (some t) = t

module _ {W : Type 0} (s : AuthService W) where
  -- `HashRefreshToken`
  unfoldable pub hash_refresh_token : Text → Text
  hash_refresh_token token = hex (s.sha256 token)

  abbrev pub session_of : User → TokenPair → Claims → Exec W (TokenPair × RefreshSession)
  session_of user pair claims = return (
    pair,
    record {
      id = pos 0;
      user_id = user.id;
      token_id = claims.id;
      token_hash = hash_refresh_token pair.refresh_token;
      expires_at = expiry claims.expires_at;
      revoked_at = none;
      replaced_by_token_id = none;
      created_at = 0;
    },
  )

  -- `newSession`
  unfoldable pub new_session : User → Exec W (TokenPair × RefreshSession)
  new_session user = do
    pair ← generate_token_pair s.jwt user
    claims ← validate_refresh_token s.jwt pair.refresh_token
    session_of user pair claims

  abbrev persisted : User → TokenPair → Result Done → Exec W AuthResult
  persisted user pair (ok d) = return (record { user = public_user user; tokens = pair })
  persisted user pair (err e) = fail (wrapped (text "persist refresh session: ") e [])

  -- `issueAndPersist`
  unfoldable pub issue_and_persist : User → Exec W AuthResult
  issue_and_persist user = do
    issued ← new_session user
    stored ← attempt (s.repository.create_refresh_session issued.1)
    persisted user issued.0 stored

  abbrev registered_email : Result Text → Exec W Text
  registered_email (ok email) = return email
  registered_email (err e) = fail (with_message err_auth_invalid_request (s.error_message e))

  abbrev hashed : Result Text → Exec W Text
  hashed (ok hash) = return hash
  hashed (err e) = fail (wrapped (text "hash password: ") e [])

  -- `Register`
  unfoldable pub register : Credentials → Exec W AuthResult
  register input = do
    email ← registered_email (Validator.email s.mail input.email)
    fail_if (ltb (length input.password) 8)
        (with_message err_auth_invalid_request (text "password must contain at least 8 characters"))
    drawn ← attempt (s.passwords.hash input.password)
    hash ← hashed drawn
    user ← s.repository.create_user email hash role_user
    issue_and_persist user

  abbrev or_refused : AppError → {A : Type 0} → Result A → Exec W A
  or_refused refusal (ok a) = return a
  or_refused refusal (err e) = fail (app refusal)

  -- An error that is one of those named is refused; any other is returned.
  abbrev unless_app : (Error → Bool) → AppError → {A : Type 0} → Result A → Exec W A
  unless_app named refusal (ok a) = return a
  unless_app named refusal (err e) = fail (if named e then app refusal else e)

  -- `Login`
  unfoldable pub login : Credentials → Exec W AuthResult
  login input = do
    email ← or_refused err_auth_invalid_credentials (Validator.email s.mail input.email)
    found ← attempt (s.repository.get_user_by_email email)
    user ← unless_app (λ e. is_app e err_auth_user_not_found) err_auth_invalid_credentials found
    fail_if (is_closed user || not (s.passwords.verify user.password_hash input.password))
        (app err_auth_invalid_credentials)
    issue_and_persist user

  -- The test of the session that a refresh token names, at a time.
  abbrev pub is_unusable : Text → RefreshSession → ℕ → Bool
  is_unusable token session now =
      not (text_eq session.token_hash (hash_refresh_token token))
      || is_some session.revoked_at
      || not (ltb now session.expires_at)

  -- `Refresh`
  unfoldable pub refresh : Text → Exec W AuthResult
  refresh token = do
    validated ← attempt (validate_refresh_token s.jwt (trim_space token))
    claims ← or_refused err_auth_invalid_refresh validated
    read ← attempt (s.repository.get_refresh_session_by_token_id claims.id)
    session ←
        unless_app (λ e. is_app e err_auth_invalid_refresh || is_app e err_auth_user_not_found)
          err_auth_invalid_refresh read
    now ← clock s.jwt
    fail_if (is_unusable token session now) (app err_auth_invalid_refresh)
    found ← attempt (s.repository.get_user_by_id session.user_id)
    user ← unless_app (λ e. is_app e err_auth_user_not_found) err_auth_invalid_refresh found
    fail_if (is_closed user) (app err_auth_invalid_refresh)
    issued ← new_session user
    s.repository.rotate_refresh_session claims.id issued.1
    return (record { user = public_user user; tokens = issued.0 })

  -- `Logout`
  unfoldable pub logout : Text → Exec W Done
  logout token = do
    validated ← attempt (validate_refresh_token s.jwt (trim_space token))
    claims ← or_refused err_auth_invalid_refresh validated
    s.repository.revoke_refresh_session claims.id

  -- `Me`
  unfoldable pub me : ℤ → Exec W User
  me user_id = do user ← s.repository.get_user_by_id user_id; return (public_user user)
