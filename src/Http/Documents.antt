-- ===== src/Http/Documents.antt =====
-- internal/handler/document.go. An actor is missing where the middleware has set none.
use api_example.Prelude.{Option, none, some, ◌++◌, if◌then◌else◌}
use api_example.Prelude.Int.{ℤ, pos, leb_ℤ}
use api_example.Text.{Text, text}
use api_example.Text.Numeral.{parse_int}
use api_example.Errors.{Error, app, with_message}
use api_example.Errors.Catalog.{err_document_unauthorized, err_document_invalid_request}
use api_example.Exec.{Result, ok, err, Exec, Done}
use api_example.Domain.{Document, Actor}
use api_example.Ports.{StoredObject}
use api_example.Upload.{Script}
use api_example.Documents.{DocumentService, UploadInput}
use api_example.Documents
use api_example.Validator
use api_example.Http.{
  Body, document_body, page_body, attachment, no_body, Handler, write_error, respond,
}

-- The file of a form, as gin's FormFile finds it; `opened` is header.Open.
pub record FormFile : Type 0 where
  pub filename : Text
  pub content_type : Text
  pub size : ℤ
  pub opened : Result Script

module _ {W : Type 0} (s : DocumentService W) (quote : Text → Text) (error_message : Error → Text)
    (request_id : Text) where
  abbrev unauthorized : Handler W
  unauthorized w = (write_error request_id (app err_document_unauthorized), w)

  abbrev invalid : Text → Handler W
  invalid message w =
      (write_error request_id (with_message err_document_invalid_request message), w)

  -- A document that was written is answered with, unless its job could not be sent.
  abbrev created : Document × Option Error → Result Document
  created (document, none) = ok document
  created (document, some e) = err e

  abbrev create_result : Exec W (Document × Option Error) → Exec W Document
  create_result m w =
      let (r, w') = m w in elim r [ ok both ↦ (created both, w') | err e ↦ (err e, w') ]

  abbrev create_opened : Actor → FormFile → Result Script → Handler W
  create_opened actor file (err e) w =
      (write_error request_id (app err_document_invalid_request), w)
  create_opened actor file (ok body) w =
      respond request_id 201 document_body
        (create_result (
          Documents.create s actor (record {
            original_name = file.filename;
            media_type = file.content_type;
            size_bytes = file.size;
            body = some body;
          })))
        w

  abbrev create_file : Actor → Option FormFile → Handler W
  create_file actor none w = invalid (text "multipart file field is required") w
  create_file actor (some file) w = create_opened actor file file.opened w

  -- `Create`
  unfoldable pub create : Option FormFile → Option Actor → Handler W
  create file none w = unauthorized w
  create file (some actor) w = create_file actor file w

  abbrev pub with_number : Text → Actor → (Actor → ℤ → Handler W) → Option ℤ → Handler W
  with_number param actor handler none w = invalid (text "invalid document id " ++ quote param) w
  with_number param actor handler (some id) w =
      if leb_ℤ id (pos 0)
      then invalid (text "invalid document id " ++ quote param) w
      else handler actor id w

  -- `actorAndID`, with what follows it; `quote` is the verb %q.
  unfoldable pub actor_and_id : Text → Option Actor → (Actor → ℤ → Handler W) → Handler W
  actor_and_id param none handler w = unauthorized w
  actor_and_id param (some actor) handler w = with_number param actor handler (parse_int param) w

  -- `Get`
  unfoldable pub get : Text → Option Actor → Handler W
  get param actor =
      actor_and_id param actor λ a id. respond request_id 200 document_body (Documents.get s a id)

  abbrev list_page : Actor → Result (ℤ × ℤ) → Handler W
  list_page actor (err e) w = invalid (error_message e) w
  list_page actor (ok (page, size)) w =
      respond request_id 200 page_body
        (Documents.list s actor (record { page = page; page_size = size })) w

  -- `List`
  unfoldable pub list : Text → Text → Option Actor → Handler W
  list page size none w = unauthorized w
  list page size (some actor) w =
      list_page actor (Validator.pagination page size (pos 20) (pos 100)) w

  abbrev pub attached : StoredObject × Document → Body
  attached (object, document) = attachment document.original_name document.media_type object

  -- `Download`
  unfoldable pub download : Text → Option Actor → Handler W
  download param actor =
      actor_and_id param actor λ a id. respond request_id 200 attached (Documents.download s a id)

  abbrev pub empty : Done → Body
  empty d = no_body

  -- `Delete`
  unfoldable pub delete : Text → Option Actor → Handler W
  delete param actor =
      actor_and_id param actor λ a id. respond request_id 204 empty (Documents.delete s a id)
