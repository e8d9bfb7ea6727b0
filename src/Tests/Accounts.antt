-- ===== src/Tests/Accounts.antt =====
-- The user 1 logs in, and refreshes with a token that it got before.
use api_example.Prelude.{◌≡◌, refl, true, none, some, [], ◌∷◌}
use api_example.Prelude.Int.{pos}
use api_example.Text.{Text, text_eq}
use api_example.Exec.{ok}
use api_example.Domain.{role_user}
use api_example.Sql.{UserRow, SessionRow, Database}
use api_example.Repository.Auth.{auth_repository}
use api_example.Tokens.{TokenPair}
use api_example.Accounts.{AuthService, AuthResult, Credentials, login, refresh}
use api_example.Accounts.Passing.{IsLoggedIn, login-IsLoggedIn}
use api_example.Accounts.Once.{view, Keeps-session, Keeps-user, Keeps-new_session, refresh_once}
use api_example.Accounts.Spent.{IsRefreshed, refresh-IsRefreshed}
use api_example.Tests.Fixtures.{database_of, lower}
use api_example.Tests.Keyring.{
  manager, manager-IsTimeless, access_token_text, refresh_token_text, old_token_text, new_id,
  old_id,
}

abbrev pub accounts : AuthService Database
accounts = record {
  repository = auth_repository lower;
  jwt = manager;
  passwords = record { hash = λ password d. (ok password, d); verify = text_eq };
  mail = record { parse_address = λ value. some value; unicode_lower = lower };
  sha256 = λ bytes. bytes;
  error_message = λ e. [];
}

abbrev user_row : UserRow
user_row = record {
  id = pos 1;
  email = b'e' ∷ [];
  password_hash = b'x' ∷ [];
  role_name = role_user;
  is_active = true;
  created_at = some 0;
  updated_at = some 0;
  deleted_at = none;
}

-- The session of the earlier token.
abbrev old_session : SessionRow
old_session = record {
  id = pos 1;
  user_id = pos 1;
  token_id = old_id;
  token_hash = b'4' ∷ b'f' ∷ [];
  expires_at = some 20;
  revoked_at = none;
  replaced_by_token_id = none;
  created_at = some 0;
}

abbrev before : Database
before = record (database_of [] []) {
  users = user_row ∷ [];
  sessions = old_session ∷ [];
  next_session = 2;
}

abbrev new_session_row : SessionRow
new_session_row = record {
  id = pos 2;
  user_id = pos 1;
  token_id = new_id;
  token_hash = b'5' ∷ b'2' ∷ [];
  expires_at = some 27;
  revoked_at = none;
  replaced_by_token_id = none;
  created_at = some 7;
}

abbrev logged_in : Database
logged_in = record before { sessions = old_session ∷ new_session_row ∷ []; next_session = 3 }

abbrev result : AuthResult
result = record {
  user = record {
    id = pos 1;
    email = b'e' ∷ [];
    password_hash = [];
    role = role_user;
    is_active = true;
    created_at = 0;
    updated_at = 0;
    deleted_at = none;
  };
  tokens = record {
    access_token = access_token_text;
    refresh_token = refresh_token_text;
    expires_at = 17;
  };
}

abbrev credentials : Credentials
credentials = record { email = b'e' ∷ []; password = b'x' ∷ [] }

login-works : login accounts credentials before ≡ (ok result, logged_in)
unfolding login text_eq api_example.Accounts.new_session api_example.Tokens.generate_token_pair
    api_example.Tokens.sign api_example.Tokens.claims_for api_example.Tokens.validate
    api_example.Tokens.random_token_id api_example.Tokens.token_type_text
    api_example.Accounts.hash_refresh_token api_example.Accounts.public_user
    api_example.Repository.Auth.user_from_row api_example.Text.Decimal.format_int
    api_example.Text.trim_space api_example.Text.Hex.hex api_example.Accounts.issue_and_persist
    api_example.Validator.email api_example.Text.to_lower
    api_example.Repository.Auth.get_user_by_email api_example.Sql.Auth.get_user_by_email
    api_example.Sql.Auth.create_refresh_session api_example.Sql.Auth.session_violation
    api_example.Repository.Auth.create_refresh_session
login-works = refl

abbrev refreshed : Database
refreshed = record before {
  sessions =
      record old_session { revoked_at = some 7; replaced_by_token_id = some new_id }
      ∷ new_session_row
      ∷ [];
  next_session = 3;
}

refresh-works : refresh accounts old_token_text before ≡ (ok result, refreshed)
unfolding refresh text_eq api_example.Accounts.new_session api_example.Tokens.generate_token_pair
    api_example.Tokens.sign api_example.Tokens.claims_for api_example.Tokens.validate
    api_example.Tokens.random_token_id api_example.Tokens.token_type_text
    api_example.Accounts.hash_refresh_token api_example.Accounts.public_user
    api_example.Repository.Auth.user_from_row api_example.Text.Decimal.format_int
    api_example.Text.trim_space api_example.Text.Hex.hex
    api_example.Repository.Auth.get_refresh_session_by_token_id
    api_example.Sql.Auth.get_refresh_session_by_token_id
    api_example.Repository.Auth.refresh_session_from_db api_example.Repository.Auth.get_user_by_id
    api_example.Sql.Auth.get_user_by_id api_example.Repository.Auth.rotate_refresh_session
    api_example.Sql.Auth.rotate_session api_example.Sql.Auth.create_refresh_session
    api_example.Sql.Auth.session_violation
refresh-works = refl

login-IsLoggedIn_example : IsLoggedIn accounts credentials before result
login-IsLoggedIn_example = login-IsLoggedIn accounts credentials result before logged_in login-works

refresh-IsRefreshed_example : IsRefreshed accounts view old_token_text before result refreshed
refresh-IsRefreshed_example =
    refresh-IsRefreshed accounts view
      (Keeps-session accounts (λ n d. refl) lower refl manager-IsTimeless)
      (Keeps-user accounts (λ n d. refl) lower refl manager-IsTimeless)
      (Keeps-new_session accounts (λ n d. refl)) old_token_text result before refreshed
      refresh-works

refresh_once_example : ¬ (refresh accounts old_token_text refreshed ≡ (ok result, refreshed))
refresh_once_example =
    refresh_once accounts (λ n d. refl) lower refl manager-IsTimeless old_token_text before
      refreshed refreshed result result refresh-works
