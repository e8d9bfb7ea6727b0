-- ===== src/Repository/Auth.antt =====
-- internal/repository/auth_repository.go over the queries.
pub mod Once
pub mod Rotation
pub mod Steps
use api_example.Prelude.{
  ℕ, String, Bool, true, false, not, Option, none, some, List, [], ◌∷◌, ◌==◌, if◌then◌else◌,
}
use api_example.Prelude.Int.{ℤ}
use api_example.Text.{Text, text}
use api_example.Errors.{Error, AppError, app, wrapped}
use api_example.Errors.Catalog.{
  err_auth_email_conflict, err_auth_user_not_found, err_auth_invalid_refresh,
}
use api_example.Exec.{Result, ok, err, Exec, Done, return, fail, fail_if, attempt, ◌>>=◌, ◌>>◌}
use api_example.Domain.{User, RefreshSession}
use api_example.Ports.{AuthRepository}
use api_example.Sql.{UserRow, SessionRow, Database, statement}
use api_example.Sql.Auth
use api_example.Sql.Auth.{CreateRefreshSessionParams, rotate_session}
use api_example.Repository.{map_repository_error, timestamp, timestamp_ptr}

-- `userFromCreateRow`, `userFromGetByEmailRow` and `userFromGetByIDRow`, which are one function.
unfoldable pub user_from_row : UserRow → User
user_from_row row = record {
  id = row.id;
  email = row.email;
  password_hash = row.password_hash;
  role = row.role_name;
  is_active = row.is_active;
  created_at = timestamp row.created_at;
  updated_at = timestamp row.updated_at;
  deleted_at = timestamp_ptr row.deleted_at;
}

-- `refreshSessionParams`
abbrev pub refresh_session_params : RefreshSession → CreateRefreshSessionParams
refresh_session_params session = record {
  user_id = session.user_id;
  token_id = session.token_id;
  token_hash = session.token_hash;
  expires_at = session.expires_at;
}

-- `refreshSessionFromDB`
unfoldable pub refresh_session_from_db : SessionRow → RefreshSession
refresh_session_from_db row = record {
  id = row.id;
  user_id = row.user_id;
  token_id = row.token_id;
  token_hash = row.token_hash;
  expires_at = timestamp row.expires_at;
  revoked_at = timestamp_ptr row.revoked_at;
  replaced_by_token_id = row.replaced_by_token_id;
  created_at = timestamp row.created_at;
}

abbrev pub user_or_mapped : AppError → Result UserRow → Exec Database User
user_or_mapped not_found (ok row) d = (ok (user_from_row row), d)
user_or_mapped not_found (err e) d = (err (map_repository_error e not_found), d)

abbrev pub session_or_mapped : Result SessionRow → Exec Database RefreshSession
session_or_mapped (ok row) d = (ok (refresh_session_from_db row), d)
session_or_mapped (err e) d = (err (map_repository_error e err_auth_invalid_refresh), d)

module _ (lower : Text → Text) where
  unfoldable pub create_user : Text → Text → String → Exec Database User
  create_user email password_hash role = do
    row ← attempt (
        Auth.create_user lower
          (record { email = email; password_hash = password_hash; role_name = role }))
    user_or_mapped err_auth_email_conflict row

  unfoldable pub get_user_by_email : Text → Exec Database User
  get_user_by_email email = do
    row ← attempt (Auth.get_user_by_email lower email)
    user_or_mapped err_auth_user_not_found row

unfoldable pub get_user_by_id : ℤ → Exec Database User
get_user_by_id id = do
  row ← attempt (Auth.get_user_by_id id)
  user_or_mapped err_auth_user_not_found row

unfoldable pub create_refresh_session : RefreshSession → Exec Database Done
create_refresh_session session = Auth.create_refresh_session (refresh_session_params session)

unfoldable pub get_refresh_session_by_token_id : Text → Exec Database RefreshSession
get_refresh_session_by_token_id token_id = do
  row ← attempt (Auth.get_refresh_session_by_token_id token_id)
  session_or_mapped row

-- What a transaction that is rolled back leaves: the tables as they were, and the ids drawn.
abbrev pub rollback : Database → Database → Database
rollback before after = record before { next_session = after.next_session; faults = after.faults }

-- Begin is a statement of the connection, and may fail.
abbrev pub connection : Exec Database Done
connection = statement λ d. (ok tt, d)

abbrev pub context_of : {A : Type 0} → Text → Result A → Exec Database A
context_of before (ok a) = return a
context_of before (err e) = fail (wrapped before e [])

abbrev pub rotation : Text → RefreshSession → Exec Database Done
rotation old_token_id replacement = do
  rotated ← attempt (rotate_session replacement.token_id old_token_id)
  rows ← context_of (text "revoke refresh session: ") rotated
  fail_if (not (rows == 1)) (app err_auth_invalid_refresh)
  created ← attempt (Auth.create_refresh_session (refresh_session_params replacement))
  context_of (text "create replacement refresh session: ") created

-- Whether a Commit that failed has taken effect, which its error does not say: the entry after it does.
abbrev pub taken_effect : List (Option Error) → Bool
taken_effect (none ∷ rest) = true
taken_effect (some e ∷ rest) = false
taken_effect [] = false

abbrev undecided : Database → Database → Database
undecided before after = if taken_effect after.faults then after else rollback before after

-- Commit. The Rollback that is deferred has nothing left to do after it.
abbrev pub commit : Database → Exec Database Done
commit before after = elim after.faults [
  | [] ↦ (ok tt, after)
  | none ∷ rest ↦ (ok tt, record after { faults = rest })
  | some e ∷ rest ↦ (err e, undecided before (record after { faults = rest }))
]

-- The end of the transaction: an error of one of its statements rolls it back.
abbrev pub closed : Database → Result Done × Database → Result Done × Database
closed before (ok d, after) = commit before after
closed before (err e, after) = (err e, rollback before after)

abbrev pub started : Text → RefreshSession → Result Done → Exec Database Done
started old_token_id replacement (ok d) w = closed w (rotation old_token_id replacement w)
started old_token_id replacement (err e) w =
    (err (wrapped (text "begin refresh rotation: ") e []), w)

unfoldable pub rotate_refresh_session : Text → RefreshSession → Exec Database Done
rotate_refresh_session old_token_id replacement = do
  begun ← attempt connection
  started old_token_id replacement begun

unfoldable pub revoke_refresh_session : Text → Exec Database Done
revoke_refresh_session token_id = do rows ← Auth.revoke_refresh_session token_id; return tt

-- The interface that the service is given.
abbrev pub auth_repository : (Text → Text) → AuthRepository Database
auth_repository lower = record {
  create_user = create_user lower;
  get_user_by_email = get_user_by_email lower;
  get_user_by_id = get_user_by_id;
  create_refresh_session = create_refresh_session;
  get_refresh_session_by_token_id = get_refresh_session_by_token_id;
  rotate_refresh_session = rotate_refresh_session;
  revoke_refresh_session = revoke_refresh_session;
}
