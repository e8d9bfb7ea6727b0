-- ===== src/Documents/Failure.antt =====
-- What `Create` does when the row of a stored object cannot be written.
use api_example.Prelude.{ℕ, ◌≡◌, refl, ◌∙◌, Option, none, ◌++◌, arith}
use api_example.Prelude.Int.{pos}
use api_example.Text.{Text, text}
use api_example.Errors.{Error, AppError, wrapped, is_app}
use api_example.Exec.{Result, ok, err, Exec, Done, attempt, ◌>>=◌}
use api_example.Exec.Rules.{bind-err, bind-attempt}
use api_example.Domain.{Document, NewDocument, Actor, DocumentJob}
use api_example.Upload.{CountingReader, limited}
use api_example.Documents.{
  DocumentService, UploadInput, CheckedUpload, check_upload, storage_key, register, create,
  persisted, compensated, enqueued, set_public_url, stored,
}

module _ {W : Type 0} (s : DocumentService W) (actor : Actor) where
  -- The row that `Create` writes for an upload of `count` bytes under a key.
  abbrev pub row_of : CheckedUpload → Text → ℕ → NewDocument
  row_of u key count = record {
    owner_id = actor.user_id;
    original_name = u.name;
    media_type = u.media_type;
    size_bytes = pos count;
    storage_key = key;
  }

  abbrev pub job_of : Document → DocumentJob
  job_of document = record { document_id = document.id; attempt = pos 1 }

  abbrev and_enqueue : Text → Document → Exec W (Document × Option Error)
  and_enqueue key document =
      attempt (s.queue.enqueue (job_of (set_public_url s document)))
      >>= enqueued s (set_public_url s document)

  abbrev after_row : Text → Result Document → Exec W (Document × Option Error)
  after_row key row = persisted s key row >>= and_enqueue key

  register_lem :
      (u : CheckedUpload) (key : Text) (count : ℕ) (w w' : W) (row : Result Document)
      → s.repository.create (row_of u key count) w ≡ (row, w')
      → register s actor u key count w ≡ after_row key row w'
  unfolding register
  register_lem u key count w w' row h =
      bind-attempt (s.repository.create (row_of u key count)) (after_row key) w w' row h

  compensated_lem :
      (key : Text) (e : Error) (w w' : W) (cleanup : Result Done)
      → s.storage.delete key w ≡ (cleanup, w')
      → (e' : Error) × (after_row key (err e) w ≡ (err e', w'))
        × ((target : AppError) → is_app e' target ≡ is_app e target)
  unfolding is_app
  compensated_lem key e w w' (ok d) h = (
    e,
    bind-err (persisted s key (err e)) (and_enqueue key) w w' e
        (bind-attempt (s.storage.delete key) (compensated s e) w w' (ok d) h),
    λ target. refl,
  )
  compensated_lem key e w w' (err c) h =
      let e' =
        wrapped (text "persist document: ") e
          (text "; compensate storage: " ++ s.error_message c) in
      (
        e',
        bind-err (persisted s key (err e)) (and_enqueue key) w w' e'
            (bind-attempt (s.storage.delete key) (compensated s e) w w' (err c) h),
        λ target. refl,
      )

  -- `Create` up to the end of `Put`.
  module _ (input : UploadInput) (u : CheckedUpload) (id : Text) (w w1 w2 : W)
      (put : Option Error × CountingReader) (accepted : check_upload s actor input ≡ ok u)
      (drawn : s.key_generator w ≡ (ok id, w1))
      (sent : s.storage.put
          (storage_key s actor.user_id id)
          u.media_type
          (limited s.max_upload_bytes u.body)
          w1
        ≡ (put, w2)) where
    abbrev key : Text
    key = storage_key s actor.user_id id

    create-put :
        create s actor input w ≡ (stored s put.0 >>= λ _. register s actor u key put.1.count) w2
    unfolding create
    create-put = ground (arith, accepted, drawn, sent)

    register-put : put.0 ≡ none → create s actor input w ≡ register s actor u key put.1.count w2
    register-put h = create-put ∙ rw h

    -- If the checks pass, Put works and the row cannot be written, the object that was stored is
    -- deleted by its key, no job is sent, and `Create` ends there. Its error is an application
    -- error exactly where the repository's is, also if the deletion fails.
    pub create-compensates :
        (w3 w4 : W) (e : Error) (cleanup : Result Done)
        → put.0 ≡ none
        → s.repository.create (row_of u key put.1.count) w2 ≡ (err e, w3)
        → s.storage.delete key w3 ≡ (cleanup, w4)
        → (e' : Error) × (create s actor input w ≡ (err e', w4))
          × ((target : AppError) → is_app e' target ≡ is_app e target)
    create-compensates w3 w4 e cleanup h row deleted =
        let (e', ends, same) = compensated_lem key e w3 w4 cleanup deleted in
        (e', register-put h ∙ register_lem u key put.1.count w2 w3 (err e) row ∙ ends, same)
