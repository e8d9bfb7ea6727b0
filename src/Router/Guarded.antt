-- ===== src/Router/Guarded.antt =====
-- The routes behind the middleware.
use api_example.Prelude.{ℕ, ◌≡◌, refl, ◌≢◌, true, List}
use api_example.Text.{Text}
use api_example.Errors.{Error}
use api_example.Exec.{Exec}
use api_example.Tokens.{JwtManager}
use api_example.Accounts.{AuthService}
use api_example.Documents.{DocumentService}
use api_example.Http.{request_id}
use api_example.Http.Guard.{IsGuarded, behind_lem}
use api_example.Router.{
  Route, health, register, login, refresh, logout, me, create_document, list_documents,
  get_document, download_document, delete_document, Request, is_protected, handler_of, serve,
}

-- Every other route than those that need no user stands behind the middleware.
is_protected_lem :
    (route : Route)
    → route ≢ health
    → route ≢ register
    → route ≢ login
    → route ≢ refresh
    → route ≢ logout
    → is_protected route ≡ true
unfolding is_protected
is_protected_lem health h r l f o = absurd (h refl)
is_protected_lem register h r l f o = absurd (r refl)
is_protected_lem login h r l f o = absurd (l refl)
is_protected_lem refresh h r l f o = absurd (f refl)
is_protected_lem logout h r l f o = absurd (o refl)
is_protected_lem me h r l f o = refl
is_protected_lem create_document h r l f o = refl
is_protected_lem list_documents h r l f o = refl
is_protected_lem get_document h r l f o = refl
is_protected_lem download_document h r l f o = refl
is_protected_lem delete_document h r l f o = refl

module _ {W : Type 0} (jwt : JwtManager W) (accounts : AuthService W)
    (documents : DocumentService W) (quote : Text → Text) (error_message : Error → Text)
    (random : ℕ → Exec W (List ℕ)) where
  -- A request for any other route than the health check, the registration, the login, the refresh and
  -- the logout, that is for one of the documents or the user's own data, runs its handler only if it carries an access token that is valid now, whose user id reads as a positive
  -- integer, and then for that user with the role of the token. Any other is answered with status 401
  -- and changes nothing once its id is known.
  pub serve-IsGuarded :
      (route : Route) (r : Request) (id : Text) (w w' : W)
      → route ≢ health
      → route ≢ register
      → route ≢ login
      → route ≢ refresh
      → route ≢ logout
      → request_id random r.request_id w ≡ (id, w')
      → IsGuarded jwt id
          (handler_of jwt accounts documents quote error_message random route r id)
          w'
          r.authorization
          (serve jwt accounts documents quote error_message random route r w)
  unfolding serve
  serve-IsGuarded route r id w w' h g l f o known =
      rw (known, is_protected_lem route h g l f o)
        (behind_lem jwt id (handler_of jwt accounts documents quote error_message random route r id)
          w' r.authorization)
