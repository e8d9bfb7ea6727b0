-- ===== src/Router.antt =====
-- internal/router/router.go: which handler answers a route, and behind which middleware. gin matches
-- the method and the path of a request with a route.
pub mod Guarded
use api_example.Prelude.{ℕ, String, Bool, true, false, Option, none, some, List, if◌then◌else◌}
use api_example.Text.{Text}
use api_example.Errors.{Error}
use api_example.Exec.{Result, Exec, ok, err}
use api_example.Domain.{Actor}
use api_example.Tokens.{JwtManager}
use api_example.Accounts.{AuthService, Credentials}
use api_example.Documents.{DocumentService}
use api_example.Http.{Handler, Response, health_body, behind, request_id}
use api_example.Http.Documents.{FormFile}
use api_example.Http.Documents
use api_example.Http.Auth

-- The routes of the engine.
pub data Route : Type 0 where
  health register login refresh logout me : Route
  create_document list_documents get_document download_document delete_document : Route

-- What the handlers read off a request.
pub record Request : Type 0 where
  pub request_id : Text
  pub authorization : Text
  pub credentials : Option Credentials
  pub refresh_token : Option Text
  pub file : Option FormFile
  pub page : Text
  pub page_size : Text
  pub id : Text

-- The routes that stand behind the middleware `Auth`.
unfoldable pub is_protected : Route → Bool
is_protected health = false
is_protected register = false
is_protected login = false
is_protected refresh = false
is_protected logout = false
is_protected me = true
is_protected create_document = true
is_protected list_documents = true
is_protected get_document = true
is_protected download_document = true
is_protected delete_document = true

-- `Config`, with both services: the engine has no other route than `health` without them.
module _ {W : Type 0} (jwt : JwtManager W) (accounts : AuthService W)
    (documents : DocumentService W) (quote : Text → Text) (error_message : Error → Text)
    (random : ℕ → Exec W (List ℕ)) where
  -- The handler of a route.
  unfoldable pub handler_of : Route → Request → Text → Option Actor → Handler W
  handler_of health r id actor w = (record { status = 200; body = health_body }, w)
  handler_of register r id actor w = Auth.register accounts id r.credentials w
  handler_of login r id actor w = Auth.login accounts id r.credentials w
  handler_of refresh r id actor w = Auth.refresh accounts id r.refresh_token w
  handler_of logout r id actor w = Auth.logout accounts id r.refresh_token w
  handler_of me r id actor w = Auth.me accounts id actor w
  handler_of create_document r id actor w =
      Documents.create documents quote error_message id r.file actor w
  handler_of list_documents r id actor w =
      Documents.list documents quote error_message id r.page r.page_size actor w
  handler_of get_document r id actor w = Documents.get documents quote error_message id r.id actor w
  handler_of download_document r id actor w =
      Documents.download documents quote error_message id r.id actor w
  handler_of delete_document r id actor w =
      Documents.delete documents quote error_message id r.id actor w

  -- The answer of a route to a request whose id is known.
  abbrev pub answer : Route → Request → Text → Handler W
  answer route r id w =
      let guarded = behind jwt id r.authorization (handler_of route r id) w in
      if is_protected route then guarded else handler_of route r id none w

  -- The engine that `New` makes.
  unfoldable pub serve : Route → Request → Handler W
  serve route r w = let (id, w') = request_id random r.request_id w in answer route r id w'
