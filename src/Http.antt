-- ===== src/Http.antt =====
-- pkg/errors/gin.go, internal/middleware and internal/handler. What gin reads off a request (headers,
-- path and query parameters, the bound JSON body, the form file) is an argument of the handlers.
pub mod Documents
pub mod Auth
pub mod Guard
pub mod Forbidden
use api_example.Prelude.{
  ℕ, String, Bool, true, false, ◌||◌, Option, none, some, List, [], ◌++◌, if◌then◌else◌, ltb,
  length,
}
use api_example.Prelude.Int.{ℤ, pos, leb_ℤ}
use api_example.Text.{Text, text, is_empty, trim_space}
use api_example.Text.Numeral.{parse_int}
use api_example.Text.Hex.{hex}
use api_example.Errors.{Error, AppError, app, find_app}
use api_example.Errors.Catalog.{
  err_common_internal, err_auth_invalid_token_format, err_auth_invalid_token,
}
use api_example.Exec.{Result, ok, err, Exec, attempt, fail, return, ◌>>=◌}
use api_example.Domain.{User, Document, Actor, Page}
use api_example.Ports.{StoredObject}
use api_example.Tokens.{JwtManager, Claims, extract_bearer_token, validate_access_token}
use api_example.Accounts.{AuthResult}

-- What a handler writes. `attachment` is a stream with the file name of its disposition and its media
-- type.
pub data Body : Type 0 where
  error_body : String → Text → Text → Body
  auth_body : AuthResult → Body
  user_body : User → Body
  document_body : Document → Body
  page_body : Page Document → Body
  attachment : Text → Text → StoredObject → Body
  no_body : Body
  health_body : Body

pub record Response : Type 0 where
  pub status : ℕ
  pub body : Body

abbrev or_internal : Option AppError → AppError
or_internal none = err_common_internal
or_internal (some a) = a

-- `As`, whose cause the response does not show.
unfoldable pub as_app : Error → AppError
as_app e = or_internal (find_app e)

-- `WriteGin`, with the request's id.
unfoldable pub write_error : Text → Error → Response
unfolding as_app
write_error request_id e = record {
  status = (as_app e).status;
  body = error_body (as_app e).code (as_app e).message request_id;
}

abbrev pub Handler : Type 0 → Type 0
Handler W = W → Response × W

-- The response to a service's result.
abbrev pub respond : {W A : Type 0} → Text → ℕ → (A → Body) → Exec W A → Handler W
respond request_id status body m w =
    let (r, w') = m w in
    elim r [
      | ok a ↦ (record { status = status; body = body a }, w')
      | err e ↦ (write_error request_id e, w')
    ]

abbrev request_id_or : Result (List ℕ) → Text
request_id_or (ok bytes) = hex bytes
request_id_or (err e) = text "request-unavailable"

-- `newRequestID`; `random` is rand.Read.
abbrev pub new_request_id : {W : Type 0} → (ℕ → Exec W (List ℕ)) → W → Text × W
new_request_id random w = let (r, w') = random 16 w in (request_id_or r, w')

-- `RequestID`: the id of a request, from its header.
unfoldable pub request_id : {W : Type 0} → (ℕ → Exec W (List ℕ)) → Text → W → Text × W
request_id random header w =
    let given = trim_space header in
    let made = new_request_id random w in
    if is_empty given || ltb 128 (length given) then made else (given, w)

abbrev pub actor_of : {W : Type 0} → String → Option ℤ → Exec W Actor
actor_of role none = fail (app err_auth_invalid_token)
actor_of role (some id) =
    if leb_ℤ id (pos 0)
    then fail (app err_auth_invalid_token)
    else return (record { user_id = id; role = role })

abbrev pub actor_with : {W : Type 0} → Result Claims → Exec W Actor
actor_with (err e) = fail (app err_auth_invalid_token)
actor_with (ok claims) = actor_of claims.role (parse_int claims.user_id)

abbrev pub token_actor : {W : Type 0} → JwtManager W → Text → Exec W Actor
token_actor m token =
    if is_empty token
    then fail (app err_auth_invalid_token_format)
    else attempt (validate_access_token m token) >>= actor_with

-- `Auth`, the middleware: the actor that it sets, or the error that it answers with.
unfoldable pub authenticate : {W : Type 0} → JwtManager W → Text → Exec W Actor
authenticate m header = token_actor m (extract_bearer_token header)

-- A route behind the middleware: an error ends it, and the handler is not called.
abbrev pub behind :
    {W : Type 0} → JwtManager W → Text → Text → (Option Actor → Handler W) → Handler W
behind m request_id header handler w =
    let (r, w') = authenticate m header w in
    elim r [ ok actor ↦ handler (some actor) w' | err e ↦ (write_error request_id e, w') ]
