-- ===== src/Http/Forbidden.antt =====
-- The routes of one document, for an actor that may not use it.
use api_example.Prelude.{ℕ, suc, ◌<◌, ◌≡◌, refl, sym, ap, ◌∙◌, ◌≢◌, inl, inr, false, some, arith}
use api_example.Prelude.Int.{ℤ, pos, ◌≤ℤ◌, int_eq_iff}
use api_example.Text.{Text}
use api_example.Text.Decimal.{format_int}
use api_example.Text.Numeral.{parse_int-format_int}
use api_example.Errors.{Error, app}
use api_example.Errors.Catalog.{err_document_forbidden}
use api_example.Exec.{Result, ok, err, Exec}
use api_example.Domain.{Document, Actor, is_admin}
use api_example.Documents.{DocumentService, authorize_document}
use api_example.Documents
use api_example.Documents.Access.{MayUse, denied, get-checked}
use api_example.Http.{Response, Handler, Body, document_body, write_error, respond}
use api_example.Http.Documents.{with_number, actor_and_id, get, download, delete, attached, empty}

authorize_document-forbids :
    (actor : Actor) (document : Document)
    → pos 1 ≤ℤ actor.user_id
    → is_admin actor ≡ false
    → document.owner_id ≢ actor.user_id
    → authorize_document actor document ≡ some (app err_document_forbidden)
unfolding authorize_document
authorize_document-forbids actor document known plain_user other =
    ground (arith, known, other, int_eq_iff document.owner_id actor.user_id)

module _ {W : Type 0} (s : DocumentService W) (quote : Text → Text) (error_message : Error → Text)
    (request_id : Text) where
  -- The path parameter that prints an id is read as that id.
  actor_and_id-format_int :
      (n : ℕ) (actor : Actor) (handler : Actor → ℤ → Handler W) (w : W)
      → suc n < 9223372036854775808
      → actor_and_id s quote error_message request_id
          (format_int (pos (suc n)))
          (some actor)
          handler
          w
        ≡ handler actor (pos (suc n)) w
  unfolding actor_and_id
  actor_and_id-format_int n actor handler w small =
      ap
        (λ o.
          with_number s quote error_message request_id (format_int (pos (suc n))) actor handler o w)
        (parse_int-format_int (pos (suc n)) small)
      ∙ ground arith

  respond-err :
      {A : Type 0} (body : A → Body) (status : ℕ) (m : Exec W A) (w w' : W) (e : Error)
      → m w ≡ (err e, w')
      → respond request_id status body m w ≡ (write_error request_id e, w')
  respond-err {A} body status m w w' e h =
      ap
        (λ (p : Result A × W). elim p.0 as (λ x. Response × W) [
          | ok a ↦ (record { status = status; body = body a }, p.1)
          | err d ↦ (write_error request_id d, p.1)
        ])
        h

  -- An authenticated user that is neither an administrator nor the owner of a document is answered
  -- alike, with status 403, by the routes that read, download and delete it, where the path carries
  -- the document's id, a positive integer of 64 bits, and the repository finds the document. Nothing
  -- is done after the document was read.
  pub routes-forbidden :
      (n : ℕ) (actor : Actor) (document : Document) (w w' : W)
      → suc n < 9223372036854775808
      → s.repository.get_by_id (pos (suc n)) w ≡ (ok document, w')
      → pos 1 ≤ℤ actor.user_id
      → is_admin actor ≡ false
      → document.owner_id ≢ actor.user_id
      → (refusal : Response) × (refusal.status ≡ 403)
        × (get s quote error_message request_id (format_int (pos (suc n))) (some actor) w
            ≡ (refusal, w'))
        × (download s quote error_message request_id (format_int (pos (suc n))) (some actor) w
            ≡ (refusal, w'))
        × (delete s quote error_message request_id (format_int (pos (suc n))) (some actor) w
            ≡ (refusal, w'))
  unfolding get download delete write_error api_example.Http.as_app api_example.Errors.find_app
  routes-forbidden n actor document w w' small read known plain_user other =
      let (e, got, downloaded, deleted) = denied s actor (pos (suc n)) document w w' read may_not in
      let forbidden = authorize_document-forbids actor document known plain_user other in
      let is_403 : e ≡ app err_document_forbidden =
        by_error e
          (sym got ∙ get-checked s actor (pos (suc n)) document w w' read ∙ rw forbidden) in
      (
        write_error request_id (app err_document_forbidden),
        refl,
        route document_body 200 (Documents.get s) e got is_403,
        route (attached s quote error_message request_id) 200 (Documents.download s) e downloaded
            is_403,
        route (empty s quote error_message request_id) 204 (Documents.delete s) e deleted is_403,
      )
    where
      may_not : ¬ MayUse actor document
      may_not m = elim m.allowed [ inl admin ↦ absurd cc | inr owner ↦ other owner ]

      by_error :
          (e : Error)
          → ◌≡◌ {A = Result Document × W} (err e, w') (err (app err_document_forbidden), w')
          → e ≡ app err_document_forbidden
      by_error e h = cc

      route :
          {A : Type 0} (body : A → Body) (status : ℕ) (service : Actor → ℤ → Exec W A) (e : Error)
          → service actor (pos (suc n)) w ≡ (err e, w')
          → e ≡ app err_document_forbidden
          → actor_and_id s quote error_message request_id
              (format_int (pos (suc n)))
              (some actor)
              (λ a id. respond request_id status body (service a id))
              w
            ≡ (write_error request_id (app err_document_forbidden), w')
      route body status service e refused is_403 =
          actor_and_id-format_int n actor (λ a id. respond request_id status body (service a id)) w
            small
          ∙ respond-err body status (service actor (pos (suc n))) w w' e refused
          ∙ ap (λ x. (write_error request_id x, w')) is_403
