-- ===== src/Ports.antt =====
-- internal/domain/ports.go: the interfaces through which the services reach the database, the object
-- storage and the queue, over the state `W` of the world behind them.
use api_example.Prelude.{String, Bool, Option, List}
use api_example.Prelude.Int.{ℤ}
use api_example.Text.{Text}
use api_example.Errors.{Error}
use api_example.Exec.{Exec, Done}
use api_example.Domain.{Document, NewDocument, DocumentJob, User, RefreshSession}
use api_example.Domain.Pagination.{Pagination}
use api_example.Upload.{Script, CountingReader}

pub record StoredObject : Type 0 where
  pub body : Script
  pub size_bytes : ℤ
  pub media_type : Text

-- `ClaimedDocumentJob`: the job, and the payload that `claimedJob` keeps to remove it by.
pub record ClaimedJob : Type 0 where
  pub job : DocumentJob
  pub payload : Text

-- `DocumentRepository`
pub record DocumentRepository (W : Type 0) : Type 0 where
  pub create : NewDocument → Exec W Document
  pub get_by_id : ℤ → Exec W Document
  pub list : Option ℤ → Pagination → Exec W (List Document × ℤ)
  pub soft_delete : ℤ → Exec W Done
  pub claim_processing : ℤ → Exec W Bool
  pub mark_ready : ℤ → Text → ℤ → Exec W Done
  pub mark_failed : ℤ → Text → Exec W Done

-- `ObjectStorage`. `put` is given the key, the media type and the reader, which it advances: the
-- caller reads the count off the reader that comes back, as the source reads it off the shared one.
pub record ObjectStorage (W : Type 0) : Type 0 where
  pub put : Text → Text → CountingReader → W → (Option Error × CountingReader) × W
  pub open_object : Text → Exec W StoredObject
  pub delete : Text → Exec W Done

-- `DocumentQueue`, with the methods of the jobs that it hands out.
pub record DocumentQueue (W : Type 0) : Type 0 where
  pub enqueue : DocumentJob → Exec W Done
  pub consume : Exec W ClaimedJob
  pub ack : ClaimedJob → Exec W Done
  pub retry : ClaimedJob → Exec W Done

-- `AuthRepository`
pub record AuthRepository (W : Type 0) : Type 0 where
  pub create_user : Text → Text → String → Exec W User
  pub get_user_by_email : Text → Exec W User
  pub get_user_by_id : ℤ → Exec W User
  pub create_refresh_session : RefreshSession → Exec W Done
  pub get_refresh_session_by_token_id : Text → Exec W RefreshSession
  pub rotate_refresh_session : Text → RefreshSession → Exec W Done
  pub revoke_refresh_session : Text → Exec W Done
