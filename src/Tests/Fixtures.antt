-- ===== src/Tests/Fixtures.antt =====
-- The data of the tests.
use api_example.Prelude.{ℕ, suc, true, Option, none, some, List, [], ◌∷◌}
use api_example.Prelude.Int.{pos}
use api_example.Text.{Text, text}
use api_example.Errors.{Error, plain, sentinel, eof}
use api_example.Exec.{Result, ok, err, Done}
use api_example.Domain.{Actor, role_user}
use api_example.Domain.Status.{DocumentStatus}
use api_example.Sql.{DocumentRow, UserRow, Database}
use api_example.Upload.{Script, last, chunk, CountingReader, read_counting}
use api_example.Upload.Copy.{Copied, copy, script_size}
use api_example.Ports.{StoredObject, ObjectStorage, DocumentQueue}
use api_example.Repository.Documents.{document_repository}
use api_example.Documents.{DocumentService, UploadInput, new_document_service}

-- Two chunks and io.EOF.
abbrev pub hello : Script
hello = chunk (104 ∷ 101 ∷ []) (last (108 ∷ 108 ∷ 111 ∷ []) (sentinel eof))

abbrev pub owner_row : UserRow
owner_row = record {
  id = pos 1;
  email = text "a@b.c";
  password_hash = text "x";
  role_name = role_user;
  is_active = true;
  created_at = some 0;
  updated_at = some 0;
  deleted_at = none;
}

abbrev pub row_in : DocumentStatus → DocumentRow
row_in status = record {
  id = pos 1;
  owner_id = pos 1;
  original_name = text "a.txt";
  media_type = text "text/plain";
  size_bytes = pos 5;
  storage_key = text "documents/1/k";
  checksum_sha256 = none;
  status = status;
  processing_error = none;
  created_at = some 0;
  updated_at = some 0;
  deleted_at = none;
}

abbrev pub database_of : List DocumentRow → List (Option Error) → Database
database_of documents faults = record {
  roles = role_user ∷ [];
  users = owner_row ∷ [];
  next_user = 2;
  sessions = [];
  next_session = 1;
  documents = documents;
  next_document = 2;
  now = 7;
  faults = faults;
}

abbrev pub actor : ℕ → Actor
actor id = record { user_id = pos id; role = role_user }

abbrev pub down : Error
down = plain (text "down")

abbrev pub upload : UploadInput
upload = record {
  original_name = text " a.txt ";
  media_type = text "TEXT/plain";
  size_bytes = pos 5;
  body = some hello;
}

-- What the storage keeps of the last object.
abbrev pub Shelf : Type 0
Shelf = Option (List ℕ)

abbrev shelved_with :
    {W : Type 0}
    → (List ℕ → W → W)
    → Option Error
    → Copied CountingReader
    → W
    → (Option Error × CountingReader) × W
shelved_with keep none c w = ((none, c.reader), keep c.written w)
shelved_with keep (some e) c w = ((some e, c.reader), w)

abbrev pub shelved :
    {W : Type 0}
    → (List ℕ → W → W)
    → Option (Copied CountingReader)
    → CountingReader
    → W
    → (Option Error × CountingReader) × W
shelved keep none c w = ((some down, c), w)
shelved keep (some copied) c w = shelved_with keep copied.error copied w

-- A storage that copies the reader through a buffer of four bytes.
abbrev pub copying_storage :
    {W : Type 0} → (List ℕ → W → W) → Result StoredObject → Result Done → ObjectStorage W
copying_storage keep object deleted = record {
  put = λ key media_type c w.
      shelved keep (copy (read_counting 4) (suc (script_size c.reader.reader)) [] c) c w;
  open_object = λ key w. (object, w);
  delete = λ key w. (deleted, w);
}

abbrev pub storage : Result StoredObject → Result Done → ObjectStorage Database
storage = copying_storage (λ bytes d. d)

abbrev pub stored_hello : StoredObject
stored_hello = record { body = hello; size_bytes = pos 5; media_type = text "text/plain" }

abbrev pub queue : Result Done → DocumentQueue Database
queue sent = record {
  enqueue = λ job w. (sent, w);
  consume = λ w. (err down, w);
  ack = λ c w. (ok tt, w);
  retry = λ c w. (ok tt, w);
}

abbrev pub lower : Text → Text
lower t = t

-- The service over the database, with a maximum of `max` bytes.
abbrev pub service : ℕ → Result Done → DocumentService Database
service max sent =
    new_document_service document_repository (storage (ok stored_hello) (ok tt)) (queue sent) max
      (text "text/plain" ∷ []) (text "https://cdn/") (text "") (λ w. (ok (text "k"), w)) (λ e. [])
      lower

-- A service over a storage, whose other ports are down.
abbrev pub storing : {W : Type 0} → ObjectStorage W → DocumentService W
storing storage = record {
  repository = record {
    create = λ document w. (err down, w);
    get_by_id = λ id w. (err down, w);
    list = λ owner pagination w. (err down, w);
    soft_delete = λ id w. (err down, w);
    claim_processing = λ id w. (err down, w);
    mark_ready = λ id checksum size w. (err down, w);
    mark_failed = λ id message w. (err down, w);
  };
  storage = storage;
  queue = record {
    enqueue = λ job w. (err down, w);
    consume = λ w. (err down, w);
    ack = λ c w. (err down, w);
    retry = λ c w. (err down, w);
  };
  max_upload_bytes = 9;
  allowed_media_type = [];
  cdn_url = [];
  storage_key_prefix = [];
  key_generator = λ w. (err down, w);
  error_message = λ e. [];
  unicode_lower = λ t. t;
}
