-- ===== src/Worker.antt =====
-- internal/service/document_worker.go: `DocumentWorker`.
pub mod Read
pub mod Outcome
pub mod Stuck
use api_example.Prelude.{
  ℕ, zero, suc, ◌+◌, ◌/◌, ◌%◌, Bool, true, false, not, Option, none, some, List, [], ◌∷◌, ◌++◌, ltb,
  if◌then◌else◌, length, take,
}
use api_example.Prelude.Int.{ℤ, pos, int_eq}
use api_example.Text.{Text, text}
use api_example.Text.Hex.{hex}
use api_example.Text.Decimal.{format_int}
use api_example.Errors.{Error, plain, wrapped}
use api_example.Exec.{Result, ok, err, Exec, Done, return, fail, attempt, call, ◌>>=◌, ◌>>◌}
use api_example.Domain.{Document, DocumentJob}
use api_example.Domain.Status.{ready, status_eq}
use api_example.Upload.{Script, read_script}
use api_example.Upload.Copy.{Copied, copy, script_size}
use api_example.Ports.{StoredObject, ClaimedJob, DocumentRepository, ObjectStorage, DocumentQueue}

-- `DocumentWorker`; `sha256` is the hash function, and `error_message` the method Error.
pub record DocumentWorker (W : Type 0) : Type 0 where
  pub repository : DocumentRepository W
  pub storage : ObjectStorage W
  pub sha256 : List ℕ → List ℕ
  pub error_message : Error → Text

-- `NewDocumentWorker`
abbrev pub new_document_worker :
    {W : Type 0}
    → DocumentRepository W
    → ObjectStorage W
    → (List ℕ → List ℕ)
    → (Error → Text)
    → DocumentWorker W
new_document_worker repository storage sha256 error_message = record {
  repository = repository;
  storage = storage;
  sha256 = sha256;
  error_message = error_message;
}

-- The buffer of io.Copy.
abbrev pub copy_buffer : ℕ
copy_buffer = 32768

-- io.Copy from the body of an object, with a read for each byte at most; `none` is never returned.
unfoldable pub read_body : Script → Option (Copied Script)
read_body body = copy (read_script copy_buffer) (suc (suc (script_size body))) [] body

-- message[:512]
unfoldable pub bounded_message : Text → Text
bounded_message message = if ltb 512 (length message) then take 512 message else message

module _ {W : Type 0} (w : DocumentWorker W) where
  abbrev pub failed_with : Error → Result Done → Exec W Done
  failed_with cause (ok d) = fail cause
  failed_with cause (err e) = fail (wrapped (w.error_message cause ++ text "; mark failed: ") e [])

  -- `fail`
  unfoldable pub fail_document : ℤ → Error → Exec W Done
  fail_document id cause = do
    marked ← attempt (w.repository.mark_failed id (bounded_message (w.error_message cause)))
    failed_with cause marked

  abbrev size_mismatch : ℤ → ℤ → Error
  size_mismatch recorded actual = plain (
      text "size mismatch: metadata="
      ++ (format_int recorded ++ (text " actual=" ++ format_int actual)))

  abbrev check_size : Document → List ℕ → Exec W Done
  check_size document bytes =
      if not (int_eq (pos (length bytes)) document.size_bytes)
      then fail_document document.id (size_mismatch document.size_bytes (pos (length bytes)))
      else w.repository.mark_ready document.id (hex (w.sha256 bytes)) (pos (length bytes))

  abbrev hashed : Document → Option Error → List ℕ → Exec W Done
  hashed document none bytes = check_size document bytes
  hashed document (some e) bytes = fail_document document.id (wrapped (text "read object: ") e [])

  -- The result of the copy; it is always there.
  abbrev copied : Document → Option (Copied Script) → Exec W Done
  copied document none = return tt
  copied document (some c) = hashed document c.error c.written

  abbrev opened : Document → Result StoredObject → Exec W Done
  opened document (ok object) = copied document (read_body object.body)
  opened document (err e) = fail_document document.id (wrapped (text "open object: ") e [])

  -- What follows a claim that succeeded.
  unfoldable pub process_claimed : Document → Exec W Done
  process_claimed document = do
    object ← attempt (w.storage.open_object document.storage_key)
    opened document object

  abbrev claim : Document → Bool → Exec W Done
  claim document true = process_claimed document
  claim document false = return tt

  abbrev process_document : Document → Exec W Done
  process_document document =
      if status_eq document.status ready
      then return tt
      else do claimed ← w.repository.claim_processing document.id; claim document claimed

  -- `Process`
  unfoldable pub process : DocumentJob → Exec W Done
  process job = do document ← w.repository.get_by_id job.document_id; process_document document

  abbrev retried : Error → Result Done → Exec W Done
  retried e (ok d) = return tt
  retried e (err retry) =
      fail (wrapped (text "process job: " ++ (w.error_message e ++ text "; retry: ")) retry [])

  abbrev settle : DocumentQueue W → ClaimedJob → Result Done → Exec W Done
  settle queue c (ok d) = queue.ack c
  settle queue c (err e) = do outcome ← attempt (queue.retry c); retried e outcome

  -- One pass of the loop of `Run`; `context_error` is ctx.Err.
  unfoldable pub run_once : DocumentQueue W → Exec W Done → Exec W Done
  run_once queue context_error = do
    context_error
    claimed ← queue.consume
    processed ← attempt (process claimed.job)
    settle queue claimed processed

  -- `Run`, for a number of passes: the error that it returns, or `none` if it is still running.
  unfoldable pub run : DocumentQueue W → Exec W Done → ℕ → W → Option Error × W
  run queue context_error zero state = (none, state)
  run queue context_error (suc passes) state =
      let (r, state') = run_once queue context_error state in
      elim r [ ok d ↦ run queue context_error passes state' | err e ↦ (some e, state') ]
