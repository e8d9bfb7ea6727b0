-- ===== src/Tests/Sessions.antt =====
-- The rotation of a session: one whose replacement cannot be written, and one that works.
use api_example.Prelude.{◌⊎◌, ◌≡◌, refl, Option, none, some, List, [], ◌∷◌}
use api_example.Prelude.Int.{pos}
use api_example.Text.{text}
use api_example.Errors.{Error, app, wrapped}
use api_example.Errors.Catalog.{err_auth_invalid_refresh}
use api_example.Repository.Auth.Once.{rotate_once}
use api_example.Exec.{ok, err}
use api_example.Domain.{RefreshSession}
use api_example.Sql.{SessionRow, Database}
use api_example.Repository.Auth.{rotate_refresh_session}
use api_example.Repository.Auth.Steps.{Rotated}
use api_example.Repository.Auth.Rotation.{SameTables, rotate_refresh_session-atomic}
use api_example.Tests.Fixtures.{database_of, down}

abbrev old_session : SessionRow
old_session = record {
  id = pos 1;
  user_id = pos 1;
  token_id = text "old";
  token_hash = text "h";
  expires_at = some 9;
  revoked_at = none;
  replaced_by_token_id = none;
  created_at = some 0;
}

abbrev next_session : RefreshSession
next_session = record {
  id = pos 0;
  user_id = pos 1;
  token_id = text "new";
  token_hash = text "i";
  expires_at = 20;
  revoked_at = none;
  replaced_by_token_id = none;
  created_at = 0;
}

abbrev signed_in : List (Option Error) → Database
signed_in faults = record (database_of [] faults) { sessions = old_session ∷ []; next_session = 2 }

abbrev third_fails : List (Option Error)
third_fails = none ∷ none ∷ some down ∷ []

abbrev not_created : Error
not_created = wrapped (text "create replacement refresh session: ") down []

rotation-fails :
    rotate_refresh_session (text "old") next_session (signed_in third_fails)
    ≡ (err not_created, signed_in [])
unfolding rotate_refresh_session api_example.Sql.Auth.rotate_session text api_example.Text.text_eq
    api_example.Sql.Auth.create_refresh_session
rotation-fails = refl

rotate_refresh_session-atomic_example :
    SameTables (signed_in third_fails) (signed_in [])
    ⊎ Rotated (text "old") next_session (signed_in third_fails) (signed_in [])
rotate_refresh_session-atomic_example =
    rotate_refresh_session-atomic (text "old") next_session (signed_in third_fails) (signed_in [])
      not_created rotation-fails

-- A rotation that works, and a second one of the same token.
abbrev rotated : Database
rotated = record (signed_in []) {
  sessions =
      record old_session { revoked_at = some 7; replaced_by_token_id = some (text "new") }
      ∷ record {
        id = pos 2;
        user_id = pos 1;
        token_id = text "new";
        token_hash = text "i";
        expires_at = some 20;
        revoked_at = none;
        replaced_by_token_id = none;
        created_at = some 7;
      }
      ∷ [];
  next_session = 3;
}

rotation-works : rotate_refresh_session (text "old") next_session (signed_in []) ≡ (ok tt, rotated)
unfolding rotate_refresh_session api_example.Sql.Auth.rotate_session text api_example.Text.text_eq
    api_example.Sql.Auth.create_refresh_session api_example.Sql.Auth.session_violation
rotation-works = refl

rotate_once_example :
    (rotate_refresh_session (text "old") next_session rotated).0
    ≡ err (app err_auth_invalid_refresh)
rotate_once_example =
    rotate_once (text "old") next_session next_session (signed_in []) rotated rotation-works refl
