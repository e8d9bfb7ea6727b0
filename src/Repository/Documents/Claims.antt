-- ===== src/Repository/Documents/Claims.antt =====
-- The methods of the repository on one row: claims, ends of the processing and deletions.
use api_example.Prelude.{
  ℕ, ◌≤◌, ◌≡◌, refl, sym, ap, ◌∙◌, Bool, true, false, Option, none, some, List, [], ◌∷◌, arith, ltb,
  ◌==◌,
}
use api_example.Prelude.Int.{ℤ}
use api_example.Errors.{Error, caused, sentinel, no_rows, is_sentinel}
use api_example.Errors.Catalog.{err_document_not_found}
use api_example.Exec.{Result, ok, err, Exec}
use api_example.Repository.{map_repository_error}
use api_example.Repository.Documents.{document_from_db, claim_processing, get_by_id, soft_delete}
use api_example.Sql.{DocumentRow, Database, statement, update, count, select}
use api_example.Sql.Documents.{
  update_documents, first_row, has_id, has_live_id, is_claimable, set_processing, set_deleted,
  claim_document_processing, soft_delete_document, get_document_by_id,
}
use api_example.Sql.Documents.Invariant.{IsValid, count-has_id}
use api_example.Sql.Documents.Queries.{count_le, count-claimed, select-deleted}

-- A statement that meets no fault runs.
pub statement-quiet :
    {A : Type 0} (run : Exec Database A) (d : Database) → d.faults ≡ [] → statement run d ≡ run d
statement-quiet run d = at_faults d.faults
  where
    at_faults :
        (fs : List (Option Error))
        → fs ≡ []
        → statement run (record d { faults = fs }) ≡ run (record d { faults = fs })
    at_faults [] e = refl
    at_faults (x ∷ fs) e = cc

abbrev answer_one : Result ℕ → Result Bool
answer_one (ok n) = ok (n == 1)
answer_one (err e) = err e

claim_processing-answer :
    (id : ℤ) (d : Database)
    → claim_processing id d
      ≡ (answer_one (claim_document_processing id d).0, (claim_document_processing id d).1)
unfolding claim_processing
claim_processing-answer id d = ground arith

claim-quiet :
    (id : ℤ) (d : Database)
    → d.faults ≡ []
    → claim_document_processing id d ≡ update_documents (is_claimable id) set_processing d
unfolding claim_document_processing
claim-quiet id d f = statement-quiet (update_documents (is_claimable id) set_processing) d f

pub claimable_has_id : (id : ℤ) (r : DocumentRow) → is_claimable id r ≡ true → has_id id r ≡ true
claimable_has_id id r h = ground arith

-- In a valid table, when the statement does not fail, a claim is answered `true` exactly when a row
-- of the id is pending or failed and not deleted; it sets that row to processing, and it changes no
-- other row.
pub claim_processing_lem :
    (id : ℤ) (d : Database)
    → IsValid d
    → d.faults ≡ []
    → claim_processing id d ≡ (
      ok (ltb 0 (count (is_claimable id) d.documents)),
      record d { documents = update (is_claimable id) (set_processing d.now) d.documents },
    )
claim_processing_lem id d v f =
    claim_processing-answer id d
    ∙ rw (claim-quiet id d f) (
        ap
          (λ b. (
            ok b,
            record d { documents = update (is_claimable id) (set_processing d.now) d.documents },
          ))
          one)
  where
    at_most_one : count (is_claimable id) d.documents ≤ 1
    at_most_one = omega (
      arith,
      count_le (is_claimable id) (has_id id) d.documents (claimable_has_id id),
      count-has_id 1 d.next_document id d.documents v,
    )

    one : (count (is_claimable id) d.documents == 1) ≡ ltb 0 (count (is_claimable id) d.documents)
    one = ground (arith, at_most_one)

claimed-documents :
    (id : ℤ) (d d' : Database) (n : ℕ)
    → claim_document_processing id d ≡ (ok n, d')
    → d'.documents ≡ update (is_claimable id) (set_processing d.now) d.documents
unfolding claim_document_processing
claimed-documents id d d' n = by_faults d.faults
  where
    by_faults :
        (fs : List (Option Error))
        → claim_document_processing id (record d { faults = fs }) ≡ (ok n, d')
        → d'.documents ≡ update (is_claimable id) (set_processing d.now) d.documents
    by_faults [] h = sym (ap (λ (p : Result ℕ × Database). p.1.documents) h)
    by_faults (none ∷ rest) h = sym (ap (λ (p : Result ℕ × Database). p.1.documents) h)
    by_faults (some e ∷ rest) h = cc

answered : (r : Result ℕ) (b : Bool) → answer_one r ≡ ok b → (n : ℕ) × (r ≡ ok n)
answered (ok n) b h = (n, refl)
answered (err e) b h = cc

-- Once a claim of an id has been answered, `true` or `false`, a claim that follows is answered
-- `false` if its statement does not fail: of two workers one at most goes on.
pub claim_once :
    (id : ℤ) (d d' : Database) (b : Bool)
    → claim_processing id d ≡ (ok b, d')
    → d'.faults ≡ []
    → (claim_processing id d').0 ≡ ok false
claim_once id d d' b h f =
    ap (λ (p : Result Bool × Database). p.0) (claim_processing-answer id d')
    ∙ rw (claim-quiet id d' f) (rw documents (rw count-claimed))
  where
    first :
        ◌≡◌ {A = Result Bool × Database}
          (answer_one (claim_document_processing id d).0, (claim_document_processing id d).1)
          (ok b, d')
    first = sym (claim_processing-answer id d) ∙ h

    counted : (n : ℕ) × ((claim_document_processing id d).0 ≡ ok n)
    counted =
        answered (claim_document_processing id d).0 b
          (ap (λ (p : Result Bool × Database). p.0) first)

    documents : d'.documents ≡ update (is_claimable id) (set_processing d.now) d.documents
    documents = claimed-documents id d d' counted.0 (ground (arith, counted.1, first))

deleted-documents :
    (id : ℤ) (d d' : Database)
    → soft_delete id d ≡ (ok tt, d')
    → d'.documents ≡ update (has_id id) (set_deleted d.now) d.documents
unfolding soft_delete soft_delete_document
deleted-documents id d d' = by_faults d.faults
  where
    by_faults :
        (fs : List (Option Error))
        → soft_delete id (record d { faults = fs }) ≡ (ok tt, d')
        → d'.documents ≡ update (has_id id) (set_deleted d.now) d.documents
    by_faults [] h = ground (arith, h)
    by_faults (none ∷ rest) h = ground (arith, h)
    by_faults (some e ∷ rest) h = cc

get-quiet :
    (id : ℤ) (d : Database)
    → d.faults ≡ []
    → get_document_by_id id d ≡ (first_row (select (has_live_id id) d.documents), d)
unfolding get_document_by_id
get-quiet id d f = statement-quiet (λ e. (first_row (select (has_live_id id) e.documents), e)) d f

-- After a deletion that was answered without an error the document is not found: the error is
-- ErrDocumentNotFound around pgx.ErrNoRows.
pub get_by_id-soft_delete :
    (id : ℤ) (d d' : Database)
    → soft_delete id d ≡ (ok tt, d')
    → d'.faults ≡ []
    → get_by_id id d' ≡ (err (caused err_document_not_found (sentinel no_rows)), d')
unfolding get_by_id map_repository_error is_sentinel
get_by_id-soft_delete id d d' h f =
    rw (get-quiet id d' f, get_by_id) (rw (deleted-documents id d d' h) (rw select-deleted))

-- The document of a live row.
pub get_by_id_found :
    (id : ℤ) (d : Database) (r : DocumentRow) (rest : List DocumentRow)
    → d.faults ≡ []
    → select (has_live_id id) d.documents ≡ r ∷ rest
    → get_by_id id d ≡ (ok (document_from_db r), d)
unfolding get_by_id
get_by_id_found id d r rest f e = rw (get-quiet id d f, get_by_id) (rw e)
