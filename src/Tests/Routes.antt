-- ===== src/Tests/Routes.antt =====
-- The routes of a document, for another user than its owner.
use api_example.Prelude.{ℕ, ◌++◌, ◌≡◌, ◌≢◌, refl, false, none, some, List, [], ◌∷◌, arith}
use api_example.Prelude.Int.{pos}
use api_example.Text.Decimal.{format_int}
use api_example.Exec.{Exec, ok}
use api_example.Domain.{is_admin}
use api_example.Domain.Status.{ready}
use api_example.Sql.{Database}
use api_example.Repository.Documents.{get_by_id, document_from_db}
use api_example.Documents.{new_document_service}
use api_example.Http.{Response, request_id}
use api_example.Http.Guard.{IsGuarded}
use api_example.Router.{Request, handler_of, serve, get_document}
use api_example.Router.Guarded.{serve-IsGuarded}
use api_example.Tokens.{bearer_prefix}
use api_example.Tests.Accounts.{accounts}
use api_example.Tests.Keyring.{manager, access_token_text}
use api_example.Http.Documents.{get, download, delete}
use api_example.Http.Forbidden.{routes-forbidden}
use api_example.Tests.Fixtures.{row_in, actor, service}
use api_example.Tests.Service.{one_row, row-read}

not_admin : is_admin (actor 2) ≡ false
unfolding is_admin
not_admin = refl

not_owner : (document_from_db (row_in ready)).owner_id ≢ (actor 2).user_id
unfolding document_from_db
not_owner e = cc

routes-forbidden_example :
    (refusal : Response) × (refusal.status ≡ 403)
    × (get (service 9 (ok tt)) (λ t. t) (λ e. []) [] (format_int (pos 1)) (some (actor 2)) one_row
        ≡ (refusal, one_row))
    × (download
          (service 9 (ok tt))
          (λ t. t)
          (λ e. [])
          []
          (format_int (pos 1))
          (some (actor 2))
          one_row
        ≡ (refusal, one_row))
    × (delete
          (service 9 (ok tt))
          (λ t. t)
          (λ e. [])
          []
          (format_int (pos 1))
          (some (actor 2))
          one_row
        ≡ (refusal, one_row))
unfolding new_document_service get_by_id
routes-forbidden_example =
    routes-forbidden (service 9 (ok tt)) (λ t. t) (λ e. []) [] 0 (actor 2)
      (document_from_db (row_in ready)) one_row one_row (omega arith) row-read (omega arith)
      not_admin not_owner

-- A request for the document 1 with an access token.
abbrev request : Request
request = record {
  request_id = b'q' ∷ [];
  authorization = bearer_prefix ++ access_token_text;
  credentials = none;
  refresh_token = none;
  file = none;
  page = [];
  page_size = [];
  id = b'1' ∷ [];
}

abbrev no_bytes : ℕ → Exec Database (List ℕ)
no_bytes n d = (ok [], d)

request-known : request_id no_bytes request.request_id one_row ≡ (b'q' ∷ [], one_row)
unfolding request_id api_example.Text.trim_space
request-known = refl

serve-IsGuarded_example :
    IsGuarded manager
      (b'q' ∷ [])
      (handler_of manager accounts
        (service 9 (ok tt))
        (λ t. t)
        (λ e. [])
        no_bytes
        get_document
        request
        (b'q' ∷ []))
      one_row
      request.authorization
      (serve manager accounts
        (service 9 (ok tt))
        (λ t. t)
        (λ e. [])
        no_bytes
        get_document
        request
        one_row)
serve-IsGuarded_example =
    serve-IsGuarded manager accounts (service 9 (ok tt)) (λ t. t) (λ e. []) no_bytes get_document
      request (b'q' ∷ []) one_row one_row (λ e. absurd cc) (λ e. absurd cc) (λ e. absurd cc)
      (λ e. absurd cc) (λ e. absurd cc) request-known
