-- ===== src/Worker/Stuck.antt =====
-- What a worker does with a job whose document is in processing.
use api_example.Prelude.{
  ℕ, suc, ◌≡◌, refl, sym, ap, ◌∙◌, Bool, false, List, [], ◌∷◌, arith, Bool-cases, inl, inr,
}
use api_example.Prelude.Int.{ℤ, pos_part, int_eq_iff}
use api_example.Prelude.Maps.{All}
use api_example.Errors.{Error}
use api_example.Exec.{ok}
use api_example.Domain.{DocumentJob}
use api_example.Domain.Status.{processing}
use api_example.Ports.{ObjectStorage}
use api_example.Repository.Documents.{
  document_repository, document_from_db, get_by_id, claim_processing,
}
use api_example.Repository.Documents.Claims.{
  claimable_has_id, claim_processing_lem, get_by_id_found,
}
use api_example.Sql.{DocumentRow, Database, update, count, select}
use api_example.Sql.Documents.{has_id, has_live_id, is_claimable, set_processing}
use api_example.Sql.Documents.Invariant.{Ascending, IsValid, count-above}
use api_example.Sql.Documents.Queries.{count_le, Meets, select-Meets}
use api_example.Text.{Text}
use api_example.Worker.{
  DocumentWorker, new_document_worker, process, process_document, process_claimed, claim,
}
use api_example.Exec.Rules.{bind-ok}

update_none :
    (p : DocumentRow → Bool) (change : DocumentRow → DocumentRow) (rows : List DocumentRow)
    → count p rows ≡ 0
    → update p change rows ≡ rows
update_none p change [] h = refl
update_none p change (r ∷ rows) h = elim (Bool-cases (p r)) [
  | inl e ↦ absurd (ground arith)
  | inr e ↦ rw e (ap (λ rest. r ∷ rest) (update_none p change rows (ground arith)))
]

none_claimable :
    (lo hi : ℕ) (id : ℤ) (rows rest : List DocumentRow) (r : DocumentRow)
    → Ascending lo hi rows
    → select (has_live_id id) rows ≡ r ∷ rest
    → r.status ≡ processing
    → count (is_claimable id) rows ≡ 0
none_claimable lo hi id [] rest r h e s = refl
none_claimable lo hi id (t ∷ rows) rest r h e s = elim (Bool-cases (has_live_id id t)) [
  | inl live ↦
      let first : r ≡ t = ground arith in
      let status : t.status ≡ processing = ap (λ (q : DocumentRow). q.status) (sym first) ∙ s in
      let same : id ≡ t.id = ground (arith, int_eq_iff t.id id) in
      let above : count (has_id id) rows ≡ 0 =
        count-above (suc (pos_part t.id)) hi id rows h.2 (ground (arith, ap pos_part same)) in
      let fewer = count_le (is_claimable id) (has_id id) rows (λ q k. claimable_has_id id q k) in
      ground (arith, status, above, fewer)
  | inr other ↦
      let later = none_claimable (suc (pos_part t.id)) hi id rows rest r h.2 (rw other at e) s in
      ground (arith, other, later)
]

-- In a valid database, a job for a live document that is in processing is answered without an error,
-- so that it is acknowledged, and changes nothing: the document stays in processing. It is so also
-- when the worker that claimed the document has stopped, or could not record the outcome.
pub process_in_processing :
    (storage : ObjectStorage Database) (sha256 : List ℕ → List ℕ) (error_message : Error → Text)
    (d : Database) (job : DocumentJob) (r : DocumentRow) (rest : List DocumentRow)
    → IsValid d
    → d.faults ≡ []
    → select (has_live_id job.document_id) d.documents ≡ r ∷ rest
    → r.status ≡ processing
    → process (new_document_worker document_repository storage sha256 error_message) job d
      ≡ (ok tt, d)
unfolding process document_from_db process_claimed
process_in_processing storage sha256 error_message d job r rest v f e s =
    bind-ok (get_by_id job.document_id) (process_document worker) d d (document_from_db r)
      (get_by_id_found job.document_id d r rest f e)
    ∙ rw s (bind-ok (claim_processing r.id) (claim worker (document_from_db r)) d d false refused)
  where
    worker : DocumentWorker Database
    worker = new_document_worker document_repository storage sha256 error_message

    meets : All (Meets (has_live_id job.document_id)) (r ∷ rest)
    meets = rw e at (select-Meets (has_live_id job.document_id) d.documents)

    same_id : job.document_id ≡ r.id
    same_id = ground (arith, meets.0, int_eq_iff r.id job.document_id)

    no_row : count (is_claimable r.id) d.documents ≡ 0
    no_row = none_claimable 1 d.next_document r.id d.documents rest r v (rw same_id at e) s

    refused : claim_processing r.id d ≡ (ok false, d)
    refused =
        claim_processing_lem r.id d v f
        ∙ rw (no_row, update_none (is_claimable r.id) (set_processing d.now) d.documents no_row)
