-- ===== src/Tests/Rows.antt =====
-- The table documents and the repository on one row.
use api_example.Prelude.{
  ◌≡◌, refl, ◌≢◌, true, false, Option, none, some, List, [], ◌∷◌, arith, get_elem?, map, length,
  Bool, ◌&&◌, take, drop,
}
use api_example.Prelude.Int.{pos, negsuc, pos_part, ◌≤ℤ◌}
use api_example.Text.{text, text_eq}
use api_example.Errors.{Error, sentinel, caused, pg_error, no_rows}
use api_example.Errors.Catalog.{err_document_not_found, err_auth_email_conflict}
use api_example.Exec.{ok, err}
use api_example.Domain.Pagination.{Pagination, limit, offset, normalize_pagination}
use api_example.Domain.Pagination.Bounds.{normalize_pagination_lem, offset_lem}
use api_example.Sql.Documents.Ordering.{Descending}
use api_example.Repository.Documents.Conflict.{create-key_in_use}
use api_example.Domain.{NewDocument}
use api_example.Repository.Documents.Listing.{listed, page_rows, list_lem}
use api_example.Domain.Status.{pending, ready}
use api_example.Sql.{DocumentRow, Database, count, char_count}
use api_example.Sql.Documents.{set_processing, soft_delete_document}
use api_example.Sql.Documents.Lifecycle
use api_example.Sql.Documents.Lifecycle.{DocumentWrite, claim, mark_ready, mark_failed, write_all}
use api_example.Sql.Documents.History.{Evolves, write_all-Evolves, ready_is_final, deleted_is_final}
use api_example.Sql.Documents.Invariant.{IsValid}
use api_example.Repository.Documents.{
  create, claim_processing, get_by_id, soft_delete, list, document_from_db,
}
use api_example.Repository.Documents.Claims.{
  claim_processing_lem, claim_once, get_by_id-soft_delete,
}
use api_example.Tests.Fixtures.{row_in, database_of, down}

-- A claim, a deletion that the connection loses, a result and a late failure.
abbrev writes : List DocumentWrite
writes =
    claim (pos 1)
    ∷ Lifecycle.soft_delete (pos 1)
    ∷ mark_ready (text "ab") (pos 5) (pos 1)
    ∷ mark_failed (text "late") (pos 1)
    ∷ []

abbrev faults : List (Option Error)
faults = none ∷ some down ∷ []

abbrev deleted_row : DocumentRow
deleted_row = record (row_in pending) { deleted_at = some 3 }

run_example :
    (get_elem? (write_all writes (database_of (row_in pending ∷ []) faults)).documents 0)
    ≡ some (record (row_in ready) { checksum_sha256 = some (text "ab"); updated_at = some 7 })
unfolding write_all api_example.Sql.Documents.mark_document_failed
    api_example.Sql.Documents.mark_document_ready soft_delete_document
    api_example.Sql.Documents.claim_document_processing text api_example.Sql.is_encoded
run_example = refl

write_all-Evolves_example :
    (r' : DocumentRow) × (get_elem?
        (write_all writes (database_of (row_in pending ∷ []) faults)).documents
        0
      ≡ some r')
    × Evolves (row_in pending) r'
write_all-Evolves_example =
    write_all-Evolves writes (database_of (row_in pending ∷ []) faults) 0 (row_in pending) refl

ready_is_final_example :
    (r' : DocumentRow) × (get_elem?
        (write_all writes (database_of (row_in ready ∷ []) faults)).documents
        0
      ≡ some r')
    × (r'.status ≡ ready)
    × (r'.checksum_sha256 ≡ none)
    × (r'.size_bytes ≡ pos 5)
ready_is_final_example =
    ready_is_final writes (database_of (row_in ready ∷ []) faults) 0 (row_in ready) refl refl

deleted_is_final_example :
    (r' : DocumentRow) × (get_elem?
        (write_all writes (database_of (deleted_row ∷ []) faults)).documents
        0
      ≡ some r')
    × (r'.deleted_at ≢ none)
    × (r'.status ≡ pending)
deleted_is_final_example =
    deleted_is_final writes (database_of (deleted_row ∷ []) faults) 0 deleted_row refl
      (ground arith)

row-IsValid : IsValid (database_of (row_in pending ∷ []) [])
row-IsValid = (refl, omega arith, omega arith)

claim_processing_lem_example :
    claim_processing (pos 1) (database_of (row_in pending ∷ []) [])
    ≡ (ok true, database_of (set_processing 7 (row_in pending) ∷ []) [])
claim_processing_lem_example =
    claim_processing_lem (pos 1) (database_of (row_in pending ∷ []) []) row-IsValid refl

abbrev claimed : Database
claimed = database_of (set_processing 7 (row_in pending) ∷ []) []

claim_once_example : (claim_processing (pos 1) claimed).0 ≡ ok false
claim_once_example =
    claim_once (pos 1) (database_of (row_in pending ∷ []) []) claimed true
      (claim_processing_lem (pos 1) (database_of (row_in pending ∷ []) []) row-IsValid refl) refl

abbrev after_deletion : Database
after_deletion =
    database_of (record (row_in ready) { deleted_at = some 7; updated_at = some 7 } ∷ []) []

deleted : soft_delete (pos 1) (database_of (row_in ready ∷ []) []) ≡ (ok tt, after_deletion)
unfolding soft_delete soft_delete_document
deleted = refl

get_by_id-soft_delete_example :
    get_by_id (pos 1) after_deletion
    ≡ (err (caused err_document_not_found (sentinel no_rows)), after_deletion)
get_by_id-soft_delete_example =
    get_by_id-soft_delete (pos 1) (database_of (row_in ready ∷ []) []) after_deletion deleted refl

abbrev second_page : Pagination
second_page = record { page = pos 2; page_size = pos 1 }

abbrev two_rows : Database
two_rows = record (database_of (row_in pending ∷ record (row_in ready) { id = pos 2 } ∷ []) []) {
  next_document = 3;
}

two_rows-IsValid : IsValid two_rows
two_rows-IsValid = (refl, omega arith, (refl, omega arith, omega arith))

-- The second page of one document holds the older one.
list_run : page_rows (some (pos 1)) second_page two_rows ≡ row_in pending ∷ []
unfolding limit offset api_example.Sql.Documents.order_by_id_desc
list_run = refl

list_lem_example :
    (ordered : List DocumentRow) × (list (some (pos 1)) second_page two_rows ≡ (
      ok (
        map document_from_db
            (take (pos_part (limit second_page)) (drop (pos_part (offset second_page)) ordered)),
        pos (length ordered),
      ),
      two_rows,
    ))
    × Descending (pos 3) ordered
    × ((test : DocumentRow → Bool)
        → count test ordered ≡ count (λ r. listed (some (pos 1)) r && test r) two_rows.documents)
unfolding limit offset
list_lem_example =
    list_lem (some (pos 1)) second_page two_rows two_rows-IsValid refl (omega arith) (omega arith)

normalize_pagination_lem_example :
    (pos 1 ≤ℤ (normalize_pagination (pos 0) (pos 500)).page)
    × (pos 1 ≤ℤ (normalize_pagination (pos 0) (pos 500)).page_size)
    × ((normalize_pagination (pos 0) (pos 500)).page_size ≤ℤ pos 100)
    × (limit (normalize_pagination (pos 0) (pos 500))
        ≡ (normalize_pagination (pos 0) (pos 500)).page_size)
    × (pos 1 ≤ℤ pos 0
        → pos 1 ≤ℤ pos 500
        → pos 500 ≤ℤ pos 100
        → normalize_pagination (pos 0) (pos 500) ≡ record { page = pos 0; page_size = pos 500 })
normalize_pagination_lem_example = normalize_pagination_lem (pos 0) (pos 500)

-- The page after 2 ^ 31 / 100 pages of a hundred.
offset_lem_example :
    offset (record { page = pos 21474838; page_size = pos 100 }) ≡ negsuc 2147483595
offset_lem_example = offset_lem 21474837 100 (omega arith) (omega arith)

-- A key that the row has.
abbrev same_key : NewDocument
same_key = record {
  owner_id = pos 1;
  original_name = text "b.txt";
  media_type = text "text/plain";
  size_bytes = pos 5;
  storage_key = text "documents/1/k";
}

create-key_in_use_example : create same_key two_rows ≡ (
  err (caused err_auth_email_conflict (pg_error "23505")),
  record two_rows { next_document = 4 },
)
unfolding text char_count text_eq api_example.Sql.is_encoded
create-key_in_use_example =
    create-key_in_use same_key two_rows refl refl refl refl (omega arith) (omega arith)
      (omega arith) (omega arith)
