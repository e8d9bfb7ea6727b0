-- ===== src/Http/Auth.antt =====
-- internal/handler/auth.go. A body is missing where ShouldBindJSON fails.
use api_example.Prelude.{Option, none, some}
use api_example.Text.{Text, text}
use api_example.Errors.{app, with_message}
use api_example.Errors.Catalog.{err_auth_invalid_body, err_auth_unauthorized}
use api_example.Exec.{Done}
use api_example.Domain.{Actor}
use api_example.Accounts.{AuthService, Credentials}
use api_example.Accounts
use api_example.Http.{Body, auth_body, user_body, no_body, Handler, write_error, respond}

module _ {W : Type 0} (s : AuthService W) (request_id : Text) where
  -- `Register`
  unfoldable pub register : Option Credentials → Handler W
  register none w = (
    write_error request_id
        (with_message err_auth_invalid_body (text "email and password are required")),
    w,
  )
  register (some input) w = respond request_id 201 auth_body (Accounts.register s input) w

  -- `Login`
  unfoldable pub login : Option Credentials → Handler W
  login none w = (write_error request_id (app err_auth_invalid_body), w)
  login (some input) w = respond request_id 200 auth_body (Accounts.login s input) w

  -- `Refresh`
  unfoldable pub refresh : Option Text → Handler W
  refresh none w = (write_error request_id (app err_auth_invalid_body), w)
  refresh (some token) w = respond request_id 200 auth_body (Accounts.refresh s token) w

  abbrev empty : Done → Body
  empty d = no_body

  -- `Logout`
  unfoldable pub logout : Option Text → Handler W
  logout none w = (write_error request_id (app err_auth_invalid_body), w)
  logout (some token) w = respond request_id 204 empty (Accounts.logout s token) w

  -- `Me`
  unfoldable pub me : Option Actor → Handler W
  me none w = (write_error request_id (app err_auth_unauthorized), w)
  me (some actor) w = respond request_id 200 user_body (Accounts.me s actor.user_id) w
