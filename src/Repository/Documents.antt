-- ===== src/Repository/Documents.antt =====
-- internal/repository/document_repository.go: `DocumentRepository` over the queries.
pub mod Claims
pub mod Conflict
pub mod Listing
use api_example.Prelude.{
  ℕ, String, Bool, true, false, not, Option, none, some, List, [], ◌∷◌, ◌++◌, map, ◌==◌,
  if◌then◌else◌,
}
use api_example.Prelude.Int.{ℤ, pos}
use api_example.Text.{Text, text}
use api_example.Text.Decimal.{format_int}
use api_example.Errors.{Error, AppError, app, plain}
use api_example.Errors.Catalog.{err_document_conflict, err_document_not_found}
use api_example.Exec.{
  Result, ok, err, Exec, Done, return, fail, fail_if, attempt, from_result, ◌>>=◌, ◌>>◌,
}
use api_example.Domain.{Document, NewDocument}
use api_example.Domain.Pagination.{Pagination, limit, offset}
use api_example.Ports.{DocumentRepository}
use api_example.Repository.{map_repository_error, timestamp, timestamp_ptr}
use api_example.Sql.{DocumentRow, Database}
use api_example.Sql.Documents.{
  CreateDocumentParams, create_document, get_document_by_id, list_documents_by_owner,
  list_all_documents, count_documents_by_owner, count_all_documents, soft_delete_document,
  claim_document_processing, mark_document_ready, mark_document_failed,
}

-- `documentFromDB`
unfoldable pub document_from_db : DocumentRow → Document
document_from_db row = record {
  id = row.id;
  owner_id = row.owner_id;
  original_name = row.original_name;
  media_type = row.media_type;
  size_bytes = row.size_bytes;
  storage_key = row.storage_key;
  url = [];
  checksum_sha256 = row.checksum_sha256;
  status = row.status;
  processing_error = row.processing_error;
  created_at = timestamp row.created_at;
  updated_at = timestamp row.updated_at;
  deleted_at = timestamp_ptr row.deleted_at;
}

-- `if err != nil { return nil, mapRepositoryError(err, …) }`, and the conversion of the row.
abbrev row_or_mapped : AppError → Result DocumentRow → Exec Database Document
row_or_mapped not_found (ok row) d = (ok (document_from_db row), d)
row_or_mapped not_found (err e) d = (err (map_repository_error e not_found), d)

unfoldable pub create : NewDocument → Exec Database Document
create input = do
  row ← attempt (
      create_document (record {
        owner_id = input.owner_id;
        original_name = input.original_name;
        media_type = input.media_type;
        size_bytes = input.size_bytes;
        storage_key = input.storage_key;
      }))
  row_or_mapped err_document_conflict row

unfoldable pub get_by_id : ℤ → Exec Database Document
get_by_id id = do row ← attempt (get_document_by_id id); row_or_mapped err_document_not_found row

abbrev pub list_rows : Option ℤ → Pagination → Exec Database (List DocumentRow × ℕ)
list_rows none page = do
  rows ← list_all_documents (limit page) (offset page)
  total ← count_all_documents
  return (rows, total)
list_rows (some owner_id) page = do
  rows ← list_documents_by_owner owner_id (limit page) (offset page)
  total ← count_documents_by_owner owner_id
  return (rows, total)

unfoldable pub list : Option ℤ → Pagination → Exec Database (List Document × ℤ)
list owner_id page = do
  found ← list_rows owner_id page
  return (map document_from_db found.0, pos found.1)

unfoldable pub soft_delete : ℤ → Exec Database Done
soft_delete id = do rows ← soft_delete_document id; fail_if (rows == 0) (app err_document_not_found)

unfoldable pub claim_processing : ℤ → Exec Database Bool
claim_processing id = do rows ← claim_document_processing id; return (rows == 1)

-- fmt.Errorf("document %d is not processing", id)
abbrev pub not_processing : ℤ → Error
not_processing id = plain (text "document " ++ (format_int id ++ text " is not processing"))

unfoldable pub mark_ready : ℤ → Text → ℤ → Exec Database Done
mark_ready id checksum size = do
  rows ← mark_document_ready checksum size id
  fail_if (not (rows == 1)) (not_processing id)

unfoldable pub mark_failed : ℤ → Text → Exec Database Done
mark_failed id message = do
  rows ← mark_document_failed message id
  fail_if (not (rows == 1)) (not_processing id)

-- The interface that the services are given.
abbrev pub document_repository : DocumentRepository Database
document_repository = record {
  create = create;
  get_by_id = get_by_id;
  list = list;
  soft_delete = soft_delete;
  claim_processing = claim_processing;
  mark_ready = mark_ready;
  mark_failed = mark_failed;
}
