-- ===== src/Sql/Auth.antt =====
-- internal/repository/db/auth.sql.go: one function for each query, read off its SQL text and the
-- constraints of the tables users and refresh_sessions (migrations/list/01_create_auth_schema.go).
use api_example.Prelude.{
  ℕ, suc, String, Bool, true, false, ◌&&◌, ◌||◌, Option, none, some, List, [], ◌∷◌, ◌++◌, ltb,
  if◌then◌else◌, str_eq,
}
use api_example.Prelude.Int.{ℤ, pos, int_eq}
use api_example.Text.{Text, text_eq}
use api_example.Errors.{pg_error, sentinel, no_rows}
use api_example.Exec.{Result, ok, err, Exec, Done}
use api_example.Sql.{
  UserRow, SessionRow, Database, statement, select, update, count, is_null, char_count,
}

pub record CreateUserParams : Type 0 where
  pub email : Text
  pub password_hash : Text
  pub role_name : String

pub record CreateRefreshSessionParams : Type 0 where
  pub user_id : ℤ
  pub token_id : Text
  pub token_hash : Text
  pub expires_at : ℕ

-- Scan of a :one query.
abbrev pub first_of {ℓ} : {A : Type ℓ} → List A → Result A
first_of [] = err (sentinel no_rows)
first_of (r ∷ rows) = ok r

abbrev is_role : String → List String → Bool
is_role name [] = false
is_role name (r ∷ roles) = str_eq r name || is_role name roles

-- The queries on users; `lower` is the function LOWER of the database.
module _ (lower : Text → Text) where
  abbrev pub has_email : Text → UserRow → Bool
  has_email email u = text_eq (lower u.email) (lower email) && is_null u.deleted_at

  unfoldable pub user_violation : Database → CreateUserParams → Option String
  unfolding char_count
  user_violation d p =
      if ltb 320 (char_count p.email)
      then some "22001"
      else if ltb 0 (count (has_email p.email) d.users)
      then some "23505"
      else none

  abbrev pub new_user_row : Database → CreateUserParams → UserRow
  new_user_row d p = record {
    id = pos d.next_user;
    email = p.email;
    password_hash = p.password_hash;
    role_name = p.role_name;
    is_active = true;
    created_at = some d.now;
    updated_at = some d.now;
    deleted_at = none;
  }

  abbrev insert_user : Option String → CreateUserParams → Exec Database UserRow
  insert_user (some code) p d = (err (pg_error code), record d { next_user = suc d.next_user })
  insert_user none p d = (
    ok (new_user_row d p),
    record d { users = d.users ++ new_user_row d p ∷ []; next_user = suc d.next_user },
  )

  -- With no role of the name nothing is inserted, and no row comes back.
  unfoldable pub create_user : CreateUserParams → Exec Database UserRow
  create_user p = statement λ d.
      if is_role p.role_name d.roles
      then insert_user (user_violation d p) p d
      else (err (sentinel no_rows), d)

  unfoldable pub get_user_by_email : Text → Exec Database UserRow
  get_user_by_email email = statement λ d. (first_of (select (has_email email) d.users), d)

unfoldable pub get_user_by_id : ℤ → Exec Database UserRow
get_user_by_id id =
    statement
      λ d. (first_of (select (λ (u : UserRow). int_eq u.id id && is_null u.deleted_at) d.users), d)

abbrev pub has_token : Text → SessionRow → Bool
has_token token_id s = text_eq s.token_id token_id

-- The SQLSTATE code of the first constraint that the new row breaks.
unfoldable pub session_violation : Database → CreateRefreshSessionParams → Option String
unfolding char_count
session_violation d p =
    if ltb 64 (char_count p.token_id) || ltb 64 (char_count p.token_hash)
    then some "22001"
    else if ltb 0 (count (has_token p.token_id) d.sessions)
    then some "23505"
    else if ltb 0 (count (λ (s : SessionRow). text_eq s.token_hash p.token_hash) d.sessions)
    then some "23505"
    else if ltb 0 (count (λ (u : UserRow). int_eq u.id p.user_id) d.users)
    then none
    else some "23503"

abbrev pub new_session_row : Database → CreateRefreshSessionParams → SessionRow
new_session_row d p = record {
  id = pos d.next_session;
  user_id = p.user_id;
  token_id = p.token_id;
  token_hash = p.token_hash;
  expires_at = some p.expires_at;
  revoked_at = none;
  replaced_by_token_id = none;
  created_at = some d.now;
}

abbrev pub insert_session : Option String → CreateRefreshSessionParams → Exec Database Done
insert_session (some code) p d =
    (err (pg_error code), record d { next_session = suc d.next_session })
insert_session none p d = (
  ok tt,
  record d { sessions = d.sessions ++ new_session_row d p ∷ []; next_session = suc d.next_session },
)

unfoldable pub create_refresh_session : CreateRefreshSessionParams → Exec Database Done
create_refresh_session p = statement λ d. insert_session (session_violation d p) p d

unfoldable pub get_refresh_session_by_token_id : Text → Exec Database SessionRow
get_refresh_session_by_token_id token_id =
    statement λ d. (first_of (select (has_token token_id) d.sessions), d)

abbrev coalesce {ℓ} : {A : Type ℓ} → Option A → A → Option A
coalesce none a = some a
coalesce (some b) a = some b

unfoldable pub revoke_refresh_session : Text → Exec Database ℕ
revoke_refresh_session token_id = statement λ d. (
  ok (count (has_token token_id) d.sessions),
  record d {
    sessions =
        update (has_token token_id)
          (λ (s : SessionRow). record s { revoked_at = coalesce s.revoked_at d.now }) d.sessions;
  },
)

abbrev is_later : Option ℕ → ℕ → Bool
is_later none now = false
is_later (some t) now = ltb now t

-- token_id = $2 AND revoked_at IS NULL AND expires_at > NOW()
abbrev pub can_rotate : Text → ℕ → SessionRow → Bool
can_rotate token_id now s =
    has_token token_id s && is_null s.revoked_at && is_later s.expires_at now

abbrev pub set_rotated : Text → ℕ → SessionRow → SessionRow
set_rotated replacement now s = record s {
  revoked_at = some now;
  replaced_by_token_id = some replacement;
}

-- replaced_by_token_id is VARCHAR(64), which a row that is written must keep.
abbrev pub write_rotation : Text → Text → Exec Database ℕ
write_rotation replacement token_id d =
    if ltb 64 (char_count replacement) && ltb 0 (count (can_rotate token_id d.now) d.sessions)
    then (err (pg_error "22001"), d)
    else (
      ok (count (can_rotate token_id d.now) d.sessions),
      record d {
        sessions = update (can_rotate token_id d.now) (set_rotated replacement d.now) d.sessions;
      },
    )

unfoldable pub rotate_session : Text → Text → Exec Database ℕ
unfolding char_count
rotate_session replacement token_id = statement (write_rotation replacement token_id)
