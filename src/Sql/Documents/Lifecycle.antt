-- ===== src/Sql/Documents/Lifecycle.antt =====
-- What the queries that write documents may do to a row: the state machine of its status, and the
-- columns that never change.
use api_example.Prelude.{
  ℕ, suc, ◌≤◌, String, ◌≡◌, refl, ◌≢◌, Bool, true, false, ◌&&◌, ◌||◌, Option, none, some, List, [],
  ◌∷◌, ◌++◌, arith, ltb, if◌then◌else◌,
}
use api_example.Prelude.Int.{ltb_ℤ, ℤ, pos}
use api_example.Text.{Text}
use api_example.Errors.{Error, pg_error}
use api_example.Exec.{Result, err, Exec}
use api_example.Domain.Status.{DocumentStatus, pending, processing, ready, failed, status_eq}
use api_example.Sql.{DocumentRow, Database, update, count, statement, char_count, is_encoded, bound}
use api_example.Sql.Documents.{
  CreateDocumentParams, document_violation, create_document, soft_delete_document,
  claim_document_processing, mark_document_ready, mark_document_failed, insert_document,
  new_document_row, update_documents, write_failure, write_success, are_encoded, has_id,
  is_claimable, is_processing, set_deleted, set_processing, set_ready, set_failed,
}

-- One step of the status: a claim, or the end of the processing.
pub data StatusStep : DocumentStatus → DocumentStatus → Type 0 where
  claim_pending : StatusStep pending processing
  claim_failed : StatusStep failed processing
  succeed : StatusStep processing ready
  give_up : StatusStep processing failed

-- What one write may do to a row: it keeps its identity; it is deleted, or has been, and else as
-- before; or it is live and makes a step.
pub record SameDocument (r r' : DocumentRow) : Type 0 where
  pub same_id : r'.id ≡ r.id
  pub same_owner : r'.owner_id ≡ r.owner_id
  pub same_name : r'.original_name ≡ r.original_name
  pub same_media_type : r'.media_type ≡ r.media_type
  pub same_key : r'.storage_key ≡ r.storage_key
  pub same_creation : r'.created_at ≡ r.created_at

pub data RowStep (r r' : DocumentRow) : Type 0 where
  idle : r' ≡ r → RowStep r r'
  delete :
      SameDocument r r'
      → r'.status ≡ r.status
      → r'.checksum_sha256 ≡ r.checksum_sha256
      → r'.size_bytes ≡ r.size_bytes
      → r'.deleted_at ≢ none
      → RowStep r r'
  advance :
      SameDocument r r'
      → r.deleted_at ≡ none
      → r'.deleted_at ≡ none
      → StatusStep r.status r'.status
      → RowStep r r'

-- What one write may do to the table: nothing but draw an id, add a row with the id drawn, or make
-- a step in each row.
pub data TableStep (rows : List DocumentRow) (next : ℕ) (rows' : List DocumentRow) (next' : ℕ)
    : Type 0 where
  unchanged : rows' ≡ rows → next ≤ next' → TableStep rows next rows' next'
  added :
      (r : DocumentRow)
      → rows' ≡ rows ++ r ∷ []
      → r.id ≡ pos next
      → r.status ≡ pending
      → r.deleted_at ≡ none
      → next' ≡ suc next
      → TableStep rows next rows' next'
  updated :
      (where_clause : DocumentRow → Bool) (change : DocumentRow → DocumentRow)
      → rows' ≡ update where_clause change rows
      → ((r : DocumentRow) → where_clause r ≡ true → RowStep r (change r))
      → next' ≡ next
      → TableStep rows next rows' next'

abbrev Step : Database → Database → Type 0
Step d d' = TableStep d.documents d.next_document d'.documents d'.next_document

-- The operations that write documents.
pub data DocumentWrite : Type 0 where
  insert : CreateDocumentParams → DocumentWrite
  soft_delete : ℤ → DocumentWrite
  claim : ℤ → DocumentWrite
  mark_ready : Text → ℤ → ℤ → DocumentWrite
  mark_failed : Text → ℤ → DocumentWrite

-- The database after one of them, whether it failed or not.
unfoldable pub write : DocumentWrite → Database → Database
write (insert p) d = (create_document p d).1
write (soft_delete id) d = (soft_delete_document id d).1
write (claim id) d = (claim_document_processing id d).1
write (mark_ready checksum size id) d = (mark_document_ready checksum size id d).1
write (mark_failed message id) d = (mark_document_failed message id d).1

unfoldable pub write_all : List DocumentWrite → Database → Database
unfolding write
write_all [] d = d
write_all (w ∷ ws) d = write_all ws (write w d)

statement-Step :
    {A : Type 0} (run : Exec Database A) (d : Database)
    → ((e : Database) → Step e (run e).1)
    → Step d (statement run d).1
statement-Step run d k = by_faults d.faults
  where
    by_faults : (f : List (Option Error)) → Step d (statement run (record d { faults = f })).1
    by_faults [] = k (record d { faults = [] })
    by_faults (none ∷ rest) = k (record d { faults = rest })
    by_faults (some e ∷ rest) = unchanged refl (omega arith)

insert-Step :
    (p : CreateDocumentParams) (v : Option String) (d : Database) → Step d (insert_document v p d).1
insert-Step p (some code) d = unchanged refl (omega arith)
insert-Step p none d = added (new_document_row d p) refl refl refl refl refl

set_deleted-RowStep : (now : ℕ) (r : DocumentRow) → RowStep r (set_deleted now r)
set_deleted-RowStep now r =
    delete
      (record {
        same_id = refl;
        same_owner = refl;
        same_name = refl;
        same_media_type = refl;
        same_key = refl;
        same_creation = refl;
      })
      refl refl refl (by_deletion r.deleted_at)
  where
    by_deletion : (o : Option ℕ) → (set_deleted now (record r { deleted_at = o })).deleted_at ≢ none
    by_deletion none = ground arith
    by_deletion (some t) = ground arith

claim_status :
    (s : DocumentStatus)
    → (status_eq s pending || status_eq s failed) ≡ true
    → StatusStep s processing
claim_status pending h = claim_pending
claim_status processing h = absurd (ground arith)
claim_status ready h = absurd (ground arith)
claim_status failed h = claim_failed

set_processing-RowStep :
    (id : ℤ) (now : ℕ) (r : DocumentRow)
    → is_claimable id r ≡ true
    → RowStep r (set_processing now r)
set_processing-RowStep id now r h =
    advance
      (record {
        same_id = refl;
        same_owner = refl;
        same_name = refl;
        same_media_type = refl;
        same_key = refl;
        same_creation = refl;
      })
      (ground arith) (ground arith) (claim_status r.status (ground arith))

processing_step :
    (s t : DocumentStatus)
    → status_eq s processing ≡ true
    → StatusStep processing t
    → StatusStep s t
processing_step pending t h k = absurd (ground arith)
processing_step processing t h k = k
processing_step ready t h k = absurd (ground arith)
processing_step failed t h k = absurd (ground arith)

set_ready-RowStep :
    (id : ℤ) (checksum : Text) (size : ℤ) (now : ℕ) (r : DocumentRow)
    → is_processing id r ≡ true
    → RowStep r (set_ready checksum size now r)
set_ready-RowStep id checksum size now r h =
    advance
      (record {
        same_id = refl;
        same_owner = refl;
        same_name = refl;
        same_media_type = refl;
        same_key = refl;
        same_creation = refl;
      })
      (ground arith) (ground arith) (processing_step r.status ready (ground arith) succeed)

set_failed-RowStep :
    (id : ℤ) (message : Text) (now : ℕ) (r : DocumentRow)
    → is_processing id r ≡ true
    → RowStep r (set_failed message now r)
set_failed-RowStep id message now r h =
    advance
      (record {
        same_id = refl;
        same_owner = refl;
        same_name = refl;
        same_media_type = refl;
        same_key = refl;
        same_creation = refl;
      })
      (ground arith) (ground arith) (processing_step r.status failed (ground arith) give_up)

write_failure-Step :
    (message : Text) (id : ℤ) (d : Database) → Step d (write_failure message id d).1
write_failure-Step message id d =
    by_test (ltb 512 (char_count message) && ltb 0 (count (is_processing id) d.documents))
  where
    body : Bool → Result ℕ × Database
    body b =
        if b
        then (err (pg_error "22001"), d)
        else update_documents (is_processing id) (set_failed message) d

    by_test : (b : Bool) → Step d (body b).1
    by_test true = unchanged refl (omega arith)
    by_test false =
        updated (is_processing id) (set_failed message d.now) refl
          (set_failed-RowStep id message d.now) refl

write_success-Step :
    (checksum : Text) (size : ℤ) (id : ℤ) (d : Database)
    → Step d (write_success checksum size id d).1
write_success-Step checksum size id d =
    by_tests (ltb 64 (char_count checksum) && ltb 0 (count (is_processing id) d.documents))
      (ltb_ℤ size (pos 0) && ltb 0 (count (is_processing id) d.documents))
  where
    body : Bool → Bool → Result ℕ × Database
    body b c =
        if b
        then (err (pg_error "22001"), d)
        else if c
        then (err (pg_error "23514"), d)
        else update_documents (is_processing id) (set_ready checksum size) d

    by_tests : (b c : Bool) → Step d (body b c).1
    by_tests true c = unchanged refl (omega arith)
    by_tests false true = unchanged refl (omega arith)
    by_tests false false =
        updated (is_processing id) (set_ready checksum size d.now) refl
          (set_ready-RowStep id checksum size d.now) refl

-- A statement whose parameters are refused makes no step.
bound-Step :
    {A : Type 0} (encoded : Bool) (run : Exec Database A)
    → ((d : Database) → Step d (run d).1)
    → (d : Database) → Step d (bound encoded run d).1
bound-Step true run h d = h d
bound-Step false run h d = unchanged refl (omega arith)

-- Every write, failed or not, makes a step of the table.
pub write-TableStep : (w : DocumentWrite) (d : Database) → Step d (write w d)
unfolding write create_document soft_delete_document claim_document_processing mark_document_ready
    mark_document_failed
write-TableStep (insert p) d =
    statement-Step (bound (are_encoded p) λ e. insert_document (document_violation e p) p e) d (
      bound-Step (are_encoded p) (λ e. insert_document (document_violation e p) p e)
        λ e. insert-Step p (document_violation e p) e)
write-TableStep (soft_delete id) d =
    statement-Step (update_documents (has_id id) set_deleted) d
      λ e. updated (has_id id) (set_deleted e.now) refl (λ r h. set_deleted-RowStep e.now r) refl
write-TableStep (claim id) d =
    statement-Step (update_documents (is_claimable id) set_processing) d λ e.
      updated (is_claimable id) (set_processing e.now) refl (set_processing-RowStep id e.now) refl
write-TableStep (mark_ready checksum size id) d =
    statement-Step (bound (is_encoded checksum) (write_success checksum size id)) d (
      bound-Step (is_encoded checksum) (write_success checksum size id)
        (write_success-Step checksum size id))
write-TableStep (mark_failed message id) d =
    statement-Step (bound (is_encoded message) (write_failure message id)) d
      (bound-Step (is_encoded message) (write_failure message id) (write_failure-Step message id))
