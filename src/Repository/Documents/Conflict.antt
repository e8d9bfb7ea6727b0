-- ===== src/Repository/Documents/Conflict.antt =====
-- An INSERT whose storage key is in use.
use api_example.Prelude.{suc, ◌≤◌, ◌<◌, ◌≡◌, true, refl, some, [], arith}
use api_example.Prelude.Int.{pos, ◌≤ℤ◌}
use api_example.Text.{text_eq}
use api_example.Errors.{caused, pg_error, is_sentinel, as_pg_error}
use api_example.Errors.Catalog.{err_auth_email_conflict}
use api_example.Exec.{err}
use api_example.Domain.{NewDocument}
use api_example.Sql.{DocumentRow, Database, count, char_count, is_encoded, bound}
use api_example.Sql.Documents.{
  CreateDocumentParams, create_document, are_encoded, document_violation, insert_document,
}
use api_example.Repository.{map_repository_error}
use api_example.Repository.Documents.{create}
use api_example.Repository.Documents.Claims.{statement-quiet}

abbrev params_of : NewDocument → CreateDocumentParams
params_of input = record {
  owner_id = input.owner_id;
  original_name = input.original_name;
  media_type = input.media_type;
  size_bytes = input.size_bytes;
  storage_key = input.storage_key;
}

-- If no statement fails, the texts are UTF-8 without NUL, the name and the media type have at most 255 characters, the size is not
-- negative and a row has the storage key already, then the document is refused with
-- ErrAuthEmailConflict, the error of an address that is registered twice. No row is written.
pub create-key_in_use :
    (input : NewDocument) (d : Database)
    → d.faults ≡ []
    → is_encoded input.original_name ≡ true
    → is_encoded input.media_type ≡ true
    → is_encoded input.storage_key ≡ true
    → char_count input.original_name ≤ 255
    → char_count input.media_type ≤ 255
    → pos 0 ≤ℤ input.size_bytes
    → 0 < count (λ (r : DocumentRow). text_eq r.storage_key input.storage_key) d.documents
    → create input d ≡ (
      err (caused err_auth_email_conflict (pg_error "23505")),
      record d { next_document = suc d.next_document },
    )
unfolding create create_document map_repository_error is_sentinel as_pg_error
create-key_in_use input d f a b c name media_type size used =
    rw
      (statement-quiet
        (bound (are_encoded (params_of input))
          λ e. insert_document (document_violation e (params_of input)) (params_of input) e)
        d f)
      (rw (encoded, refused) refl)
  where
    encoded : are_encoded (params_of input) ≡ true
    encoded = unfold are_encoded in ground (arith, a, b, c)

    refused : document_violation d (params_of input) ≡ some "23505"
    refused = unfold document_violation in ground arith
