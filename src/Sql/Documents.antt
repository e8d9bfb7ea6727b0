-- ===== src/Sql/Documents.antt =====
-- internal/repository/db/documents.sql.go: one function for each query, read off its SQL text and
-- the constraints of the table documents (migrations/list/03_create_documents.go).
pub mod Invariant
pub mod Lifecycle
pub mod History
pub mod Ordering
pub mod Queries
use api_example.Prelude.{
  ℕ, suc, ◌+◌, String, ◌≡◌, Bool, true, false, ◌&&◌, ◌||◌, Option, none, some, List, [], ◌∷◌, ◌++◌,
  ltb, ◌==◌, if◌then◌else◌, take, drop,
}
use api_example.Prelude.Int.{ℤ, pos, pos_part, ltb_ℤ, int_eq}
use api_example.Text.{Text, text_eq}
use api_example.Errors.{Error, pg_error, sentinel, no_rows}
use api_example.Exec.{Result, ok, err, Exec}
use api_example.Domain.Status.{DocumentStatus, pending, processing, ready, failed, status_eq}
use api_example.Sql.{
  DocumentRow, UserRow, Database, statement, select, update, count, is_null, char_count, is_encoded,
  bound,
}

pub record CreateDocumentParams : Type 0 where
  pub owner_id : ℤ
  pub original_name : Text
  pub media_type : Text
  pub size_bytes : ℤ
  pub storage_key : Text

-- The SQLSTATE code of the first constraint that the new row breaks: lengths, CHECK, UNIQUE, REFERENCES.
unfoldable pub document_violation : Database → CreateDocumentParams → Option String
unfolding char_count
document_violation d p =
    if ltb 255 (char_count p.original_name) || ltb 255 (char_count p.media_type)
    then some "22001"
    else if ltb_ℤ p.size_bytes (pos 0)
    then some "23514"
    else if ltb 0 (count (λ (r : DocumentRow). text_eq r.storage_key p.storage_key) d.documents)
    then some "23505"
    else if ltb 0 (count (λ (u : UserRow). int_eq u.id p.owner_id) d.users)
    then none
    else some "23503"

-- The row that INSERT writes, with the column defaults.
abbrev pub new_document_row : Database → CreateDocumentParams → DocumentRow
new_document_row d p = record {
  id = pos d.next_document;
  owner_id = p.owner_id;
  original_name = p.original_name;
  media_type = p.media_type;
  size_bytes = p.size_bytes;
  storage_key = p.storage_key;
  checksum_sha256 = none;
  status = pending;
  processing_error = none;
  created_at = some d.now;
  updated_at = some d.now;
  deleted_at = none;
}

-- A refused INSERT has drawn its id all the same.
abbrev pub insert_document : Option String → CreateDocumentParams → Exec Database DocumentRow
insert_document (some code) p d =
    (err (pg_error code), record d { next_document = suc d.next_document })
insert_document none p d = (
  ok (new_document_row d p),
  record d {
    documents = d.documents ++ new_document_row d p ∷ [];
    next_document = suc d.next_document;
  },
)

unfoldable pub are_encoded : CreateDocumentParams → Bool
are_encoded p = is_encoded p.original_name && is_encoded p.media_type && is_encoded p.storage_key

unfoldable pub create_document : CreateDocumentParams → Exec Database DocumentRow
create_document p =
    statement (bound (are_encoded p) λ d. insert_document (document_violation d p) p d)

-- Scan of a :one query.
abbrev pub first_row {ℓ} : {A : Type ℓ} → List A → Result A
first_row [] = err (sentinel no_rows)
first_row (r ∷ rows) = ok r

abbrev pub has_live_id : ℤ → DocumentRow → Bool
has_live_id id r = int_eq r.id id && is_null r.deleted_at

unfoldable pub get_document_by_id : ℤ → Exec Database DocumentRow
get_document_by_id id = statement (λ d. (first_row (select (has_live_id id) d.documents), d))

-- ORDER BY id DESC
unfoldable pub insert_by_id : DocumentRow → List DocumentRow → List DocumentRow
insert_by_id r [] = r ∷ []
insert_by_id r (s ∷ rows) = if ltb_ℤ s.id r.id then r ∷ s ∷ rows else s ∷ insert_by_id r rows

unfoldable pub order_by_id_desc : List DocumentRow → List DocumentRow
unfolding insert_by_id
order_by_id_desc [] = []
order_by_id_desc (r ∷ rows) = insert_by_id r (order_by_id_desc rows)

-- LIMIT and OFFSET: a negative one is an error.
unfoldable pub window : ℤ → ℤ → List DocumentRow → Result (List DocumentRow)
window limit offset rows =
    if ltb_ℤ limit (pos 0)
    then err (pg_error "2201W")
    else if ltb_ℤ offset (pos 0)
    then err (pg_error "2201X")
    else ok (take (pos_part limit) (drop (pos_part offset) rows))

abbrev pub is_live : DocumentRow → Bool
is_live r = is_null r.deleted_at

abbrev pub is_live_of : ℤ → DocumentRow → Bool
is_live_of owner_id r = int_eq r.owner_id owner_id && is_null r.deleted_at

unfoldable pub list_documents_by_owner : ℤ → ℤ → ℤ → Exec Database (List DocumentRow)
unfolding window order_by_id_desc
list_documents_by_owner owner_id page_limit page_offset = statement λ d.
    (window page_limit page_offset (order_by_id_desc (select (is_live_of owner_id) d.documents)), d)

unfoldable pub list_all_documents : ℤ → ℤ → Exec Database (List DocumentRow)
unfolding window order_by_id_desc
list_all_documents page_limit page_offset =
    statement
      λ d. (window page_limit page_offset (order_by_id_desc (select is_live d.documents)), d)

unfoldable pub count_documents_by_owner : ℤ → Exec Database ℕ
count_documents_by_owner owner_id = statement λ d. (ok (count (is_live_of owner_id) d.documents), d)

unfoldable pub count_all_documents : Exec Database ℕ
count_all_documents = statement λ d. (ok (count is_live d.documents), d)

-- The rows affected by an UPDATE of documents, and the table after it.
abbrev pub update_documents :
    (DocumentRow → Bool) → (ℕ → DocumentRow → DocumentRow) → Exec Database ℕ
update_documents where_clause change d = (
  ok (count where_clause d.documents),
  record d { documents = update where_clause (change d.now) d.documents },
)

abbrev coalesce {ℓ} : {A : Type ℓ} → Option A → A → Option A
coalesce none a = some a
coalesce (some b) a = some b

-- The WHERE and the SET of each UPDATE; the number is NOW().
abbrev pub has_id : ℤ → DocumentRow → Bool
has_id id r = int_eq r.id id

abbrev pub set_deleted : ℕ → DocumentRow → DocumentRow
set_deleted now r = record r { deleted_at = coalesce r.deleted_at now; updated_at = some now }

unfoldable pub soft_delete_document : ℤ → Exec Database ℕ
soft_delete_document id = statement (update_documents (has_id id) set_deleted)

abbrev pub is_claimable : ℤ → DocumentRow → Bool
is_claimable id r =
    int_eq r.id id
    && (status_eq r.status pending || status_eq r.status failed)
    && is_null r.deleted_at

abbrev pub set_processing : ℕ → DocumentRow → DocumentRow
set_processing now r = record r {
  status = processing;
  processing_error = none;
  updated_at = some now;
}

unfoldable pub claim_document_processing : ℤ → Exec Database ℕ
claim_document_processing id = statement (update_documents (is_claimable id) set_processing)

abbrev pub is_processing : ℤ → DocumentRow → Bool
is_processing id r = int_eq r.id id && status_eq r.status processing && is_null r.deleted_at

abbrev pub set_ready : Text → ℤ → ℕ → DocumentRow → DocumentRow
set_ready checksum size_bytes now r = record r {
  status = ready;
  checksum_sha256 = some checksum;
  size_bytes = size_bytes;
  processing_error = none;
  updated_at = some now;
}

-- checksum_sha256 is CHAR(64), and size_bytes has a CHECK, which a row that is written must keep. A
-- checksum of fewer characters would be padded; those of the worker have 64.
abbrev pub write_success : Text → ℤ → ℤ → Exec Database ℕ
write_success checksum size_bytes id d =
    if ltb 64 (char_count checksum) && ltb 0 (count (is_processing id) d.documents)
    then (err (pg_error "22001"), d)
    else if ltb_ℤ size_bytes (pos 0) && ltb 0 (count (is_processing id) d.documents)
    then (err (pg_error "23514"), d)
    else update_documents (is_processing id) (set_ready checksum size_bytes) d

unfoldable pub mark_document_ready : Text → ℤ → ℤ → Exec Database ℕ
unfolding char_count
mark_document_ready checksum size_bytes id =
    statement (bound (is_encoded checksum) (write_success checksum size_bytes id))

abbrev pub set_failed : Text → ℕ → DocumentRow → DocumentRow
set_failed message now r = record r {
  status = failed;
  processing_error = some message;
  updated_at = some now;
}

-- processing_error is VARCHAR(512), which a row that is written must keep.
abbrev write_failure : Text → ℤ → Exec Database ℕ
write_failure message id d =
    if ltb 512 (char_count message) && ltb 0 (count (is_processing id) d.documents)
    then (err (pg_error "22001"), d)
    else update_documents (is_processing id) (set_failed message) d

unfoldable pub mark_document_failed : Text → ℤ → Exec Database ℕ
unfolding char_count
mark_document_failed message id = statement (bound (is_encoded message) (write_failure message id))
