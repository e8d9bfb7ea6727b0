-- ===== src/Queue.antt =====
-- internal/queue/redis.go: the reliable queue over three Redis lists. The list backend, and the
-- decoder of encoding/json, are parameters.
pub mod Laws
pub mod Attempts
pub mod Delivery
use api_example.Prelude.{ℕ, Bool, ◌||◌, Option, none, some, List, [], ◌∷◌, ◌++◌, if◌then◌else◌}
use api_example.Prelude.Int.{ℤ, pos, ◌+ℤ◌, leb_ℤ}
use api_example.Text.{Text, text}
use api_example.Text.Decimal.{format_int}
use api_example.Errors.{Error, app, wrap, wrapped}
use api_example.Errors.Catalog.{err_queue_invalid_job, err_queue_unavailable}
use api_example.Exec.{Result, ok, err, Exec, Done, return, fail, attempt, ◌>>=◌, ◌>>◌}
use api_example.Domain.{DocumentJob}
use api_example.Ports.{ClaimedJob, DocumentQueue}

-- `listBackend`; `move` takes the source and the destination, and waits without limit.
pub record ListBackend (W : Type 0) : Type 0 where
  pub push : Text → Text → Exec W Done
  pub move : Text → Text → Exec W Text
  pub remove : Text → Text → Exec W Done

-- `RedisQueue`; `decode` is json.Unmarshal into a `DocumentJob`.
pub record RedisQueue (W : Type 0) : Type 0 where
  pub backend : ListBackend W
  pub main : Text
  pub processing : Text
  pub dead_letter : Text
  pub max_attempts : ℤ
  pub decode : Text → Result DocumentJob

-- json.Marshal of a `DocumentJob`.
unfoldable pub encode : DocumentJob → Text
encode job =
    text "{\"document_id\":"
    ++ (format_int job.document_id
        ++ (text ",\"attempt\":" ++ (format_int job.attempt ++ text "}")))

-- `validateJob`
unfoldable pub validate_job : DocumentJob → Option Error
validate_job job =
    if leb_ℤ job.document_id (pos 0) || leb_ℤ job.attempt (pos 0)
    then some (app err_queue_invalid_job)
    else none

abbrev unavailable : {W A : Type 0} → Result A → Exec W A
unavailable (ok a) = return a
unavailable (err e) = fail (wrap err_queue_unavailable e)

module _ {W : Type 0} (q : RedisQueue W) where
  abbrev or_fail : Option Error → Exec W Done
  or_fail none = return tt
  or_fail (some e) = fail e

  -- `Enqueue`
  unfoldable pub enqueue : DocumentJob → Exec W Done
  enqueue job = do
    or_fail (validate_job job)
    sent ← attempt (q.backend.push q.main (encode job))
    unavailable sent

  -- A payload that holds no valid job leaves the processing list, and its error is returned.
  abbrev discard : {A : Type 0} → Text → Error → Exec W A
  discard payload e = do attempt (q.backend.remove q.processing payload); fail e

  abbrev claimed : Text → DocumentJob → Option Error → Exec W ClaimedJob
  claimed payload job none = return (record { job = job; payload = payload })
  claimed payload job (some e) = discard payload e

  abbrev decoded : Text → Result DocumentJob → Exec W ClaimedJob
  decoded payload (ok job) = claimed payload job (validate_job job)
  decoded payload (err e) = discard payload (wrapped (text "decode document job: ") e [])

  -- `Consume`
  unfoldable pub consume : Exec W ClaimedJob
  consume = do
    moved ← attempt (q.backend.move q.main q.processing)
    payload ← unavailable moved
    decoded payload (q.decode payload)

  -- `Ack`
  unfoldable pub ack : ClaimedJob → Exec W Done
  ack c = q.backend.remove q.processing c.payload

  -- The list and the job of a retry.
  unfoldable pub destination : DocumentJob → Text
  destination job = if leb_ℤ q.max_attempts job.attempt then q.dead_letter else q.main

  unfoldable pub next_job : DocumentJob → DocumentJob
  next_job job =
      if leb_ℤ q.max_attempts job.attempt
      then job
      else record job { attempt = job.attempt +ℤ pos 1 }

  -- `Retry`
  unfoldable pub retry : ClaimedJob → Exec W Done
  retry c = do
    q.backend.remove q.processing c.payload
    sent ← attempt (q.backend.push (destination c.job) (encode (next_job c.job)))
    unavailable sent

  -- The interface that the service and the worker are given.
  abbrev pub document_queue : DocumentQueue W
  document_queue = record { enqueue = enqueue; consume = consume; ack = ack; retry = retry }
