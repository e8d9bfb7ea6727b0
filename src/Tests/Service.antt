-- ===== src/Tests/Service.antt =====
-- `DocumentService`, and the readers of an upload.
use api_example.Prelude.{
  ℕ, suc, ◌≤◌, ◌≡◌, refl, ◌⊎◌, inr, true, false, Option, none, some, List, [], ◌∷◌, arith, length,
  ◌↔◌, if◌then◌else◌,
}
use api_example.Prelude.Int.{pos}
use api_example.Prelude.Maps.{All}
use api_example.Text.{Text, text, is_empty, space_width, trim_space}
use api_example.Text.Path.{slash, dot_dot}
use api_example.Text.Path.Normal.{IsEntry}
use api_example.Text.Segments.{split}
use api_example.Errors.{
  Error, AppError, app, caused, sentinel, eof, upload_too_large, is_app, is_sentinel,
}
use api_example.Errors.Catalog.{err_queue_unavailable, err_document_not_ready}
use api_example.Exec.{Result, ok, err, Done, return, ◌>>=◌}
use api_example.Domain.{Document, is_admin}
use api_example.Domain.Status.{pending, ready, status_eq}
use api_example.Sql.{Database, DocumentRow}
use api_example.Upload.{last, read_script, CountingReader, read_counting, limited}
use api_example.Upload.Copy.{Copied, copy, content, is_eof, final_error, script_size}
use api_example.Upload.Bounds.{copy-limited}
use api_example.Repository.Documents.{get_by_id, document_from_db}
use api_example.Repository.Documents
use api_example.Storage.{validate_key}
use api_example.Storage.Key.{validate_key-accepts}
use api_example.Documents.{
  DocumentService, CheckedUpload, check_upload, create, get, download, delete, authorize_document,
  set_public_url, new_document_service, storage_key,
}
use api_example.Documents.Access.{MayUse, IsShown, authorize_document_iff, denied, granted}
use api_example.Documents.Create.{
  IsAcceptable, check_upload-IsAcceptable, IsCopying, put-stores_all,
}
use api_example.Documents.Created.{IsCreated, create-IsCreated}
use api_example.Documents.Failure.{row_of, create-compensates}
use api_example.Tests.Fixtures.{
  hello, row_in, database_of, actor, down, upload, Shelf, shelved, copying_storage, service,
  storing,
}

-- Of five bytes, read two at a time, three are allowed.
copy-limited_example :
    (c : CountingReader) × (copy (read_counting 2) 9 [] (limited 3 hello)
      ≡ some (record {
        written = 104 ∷ 101 ∷ 108 ∷ [];
        error = some (sentinel upload_too_large);
        reader = c;
      }))
    × (c.count ≡ 3)
unfolding content script_size
copy-limited_example = copy-limited 2 9 3 hello (omega arith) tt (omega arith)

abbrev checked : CheckedUpload
checked = record { name = text "a.txt"; media_type = text "text/plain"; body = hello }

upload-ok : check_upload (service 9 (ok tt)) (actor 1) upload ≡ ok checked
unfolding check_upload new_document_service api_example.Documents.upload_name
    api_example.Text.Path.base api_example.Text.replace_byte trim_space text
    api_example.Text.text_eq api_example.Documents.is_member api_example.Documents.normal_media_type
    api_example.Text.to_lower
upload-ok = refl

check_upload-IsAcceptable_example :
    (check_upload (service 9 (ok tt)) (actor 1) upload ≡ ok checked)
    ↔ IsAcceptable (service 9 (ok tt)) (actor 1) upload checked
check_upload-IsAcceptable_example =
    check_upload-IsAcceptable (service 9 (ok tt)) (actor 1) upload checked

-- A service whose storage keeps the last object.
abbrev keeping : DocumentService Shelf
keeping = storing (copying_storage (λ bytes w. some bytes) (err down) (ok tt))

abbrev kept : Shelf → Text → Option (List ℕ)
kept w key = w

shelved-copied :
    (result : Option (Copied CountingReader)) (c c' : CountingReader) (w w' : Shelf)
    → shelved (λ bytes v. some bytes) result c w ≡ ((none, c'), w')
    → (bytes : List ℕ) × (result ≡ some (record { written = bytes; error = none; reader = c' }))
      × (w' ≡ some bytes)
shelved-copied none c c' w w' h = cc
shelved-copied (some x) c c' w w' h = by_error x.error h
  where
    by_error :
        (e : Option Error)
        → shelved (λ bytes v. some bytes) (some (record x { error = e })) c w ≡ ((none, c'), w')
        → (bytes : List ℕ) × (some (record x { error = e })
            ≡ some (record { written = bytes; error = none; reader = c' }))
          × (w' ≡ some bytes)
    by_error none h = (x.written, cc, cc)
    by_error (some e) h = cc

keeping-IsCopying : IsCopying keeping.storage (λ key. Unit) kept
keeping-IsCopying = record {
  copied = λ key media_type c c' w w' named h.
      let (bytes, ran, same) =
        shelved-copied (copy (read_counting 4) (suc (script_size c.reader.reader)) [] c) c c' w w'
          h in
      (4, bytes, omega arith, ran, same);
}

abbrev read_out : CountingReader
read_out = record {
  reader = record { reader = last [] (sentinel eof); remaining = 4; checked_overflow = false };
  count = 5;
}

put-ok : keeping.storage.put [] [] (limited 9 hello) none ≡ ((none, read_out), some (content hello))
unfolding copy read_counting limited api_example.Upload.read_script script_size is_eof content
put-ok = refl

put-stores_all_example :
    (kept (some (content hello)) [] ≡ some (content hello))
    × (length (content hello) ≤ 9)
    × (is_eof (final_error hello) ≡ true)
    × (read_out.count ≡ length (content hello))
put-stores_all_example =
    put-stores_all keeping (λ key. Unit) kept [] [] hello read_out none (some (content hello))
      keeping-IsCopying tt tt put-ok

-- The user 2 is refused the document of the user 1.
abbrev pub one_row : Database
one_row = database_of (row_in ready ∷ []) []

owner_may : MayUse (actor 1) (document_from_db (row_in ready))
unfolding document_from_db
owner_may = record { authenticated = omega arith; allowed = inr refl }

other_may_not : ¬ MayUse (actor 2) (document_from_db (row_in ready))
unfolding document_from_db is_admin
other_may_not m = ground (arith, m.allowed)

pub row-read : get_by_id (pos 1) one_row ≡ (ok (document_from_db (row_in ready)), one_row)
unfolding get_by_id api_example.Sql.Documents.get_document_by_id
row-read = refl

denied_example :
    (e : Error) × (get (service 9 (ok tt)) (actor 2) (pos 1) one_row ≡ (err e, one_row))
    × (download (service 9 (ok tt)) (actor 2) (pos 1) one_row ≡ (err e, one_row))
    × (delete (service 9 (ok tt)) (actor 2) (pos 1) one_row ≡ (err e, one_row))
unfolding new_document_service get_by_id
denied_example =
    denied (service 9 (ok tt)) (actor 2) (pos 1) (document_from_db (row_in ready)) one_row one_row
      row-read other_may_not

authorize_document_iff_example :
    (authorize_document (actor 1) (document_from_db (row_in ready)) ≡ none)
    ↔ MayUse (actor 1) (document_from_db (row_in ready))
authorize_document_iff_example = authorize_document_iff (actor 1) (document_from_db (row_in ready))

granted_example :
    (shown : Document) × IsShown (service 9 (ok tt)).cdn_url (document_from_db (row_in ready)) shown
    × (get (service 9 (ok tt)) (actor 1) (pos 1) one_row ≡ (ok shown, one_row))
    × (delete (service 9 (ok tt)) (actor 1) (pos 1) one_row
        ≡ Documents.soft_delete (document_from_db (row_in ready)).id one_row)
    × (download (service 9 (ok tt)) (actor 1) (pos 1) one_row ≡ (
        if status_eq (document_from_db (row_in ready)).status ready
        then ((service 9 (ok tt)).storage.open_object (document_from_db (row_in ready)).storage_key
              >>= λ o. return (o, shown))
            one_row
        else (err (app err_document_not_ready), one_row)))
unfolding new_document_service get_by_id
granted_example =
    granted (service 9 (ok tt)) (actor 1) (pos 1) (document_from_db (row_in ready)) one_row one_row
      row-read owner_may

-- `Create` with a connection that fails, and with a queue that fails.
abbrev no_rows_yet : List (Option Error) → Database
no_rows_yet faults = database_of [] faults

abbrev key_of : ℕ → Text
key_of max = storage_key (service max (ok tt)) (pos 1) (text "k")

put-whole :
    (sent : Result Done) (d : Database)
    → (service 9 sent).storage.put (key_of 9) (text "text/plain") (limited 9 hello) d
      ≡ ((none, read_out), d)
unfolding limited read_counting copy script_size new_document_service read_script is_eof
put-whole sent d = refl

abbrev lost_row : Error
lost_row = down

row-lost :
    (service 9 (ok tt)).repository.create
      (row_of (service 9 (ok tt)) (actor 1) checked (key_of 9) 5)
      (no_rows_yet (some down ∷ []))
    ≡ (err lost_row, no_rows_yet [])
unfolding new_document_service Documents.create api_example.Sql.Documents.create_document
    api_example.Repository.map_repository_error is_sentinel api_example.Errors.as_pg_error
row-lost = refl

create-compensates_example :
    (e' : Error) × (create (service 9 (ok tt)) (actor 1) upload (no_rows_yet (some down ∷ []))
      ≡ (err e', no_rows_yet []))
    × ((target : AppError) → is_app e' target ≡ is_app lost_row target)
unfolding new_document_service
create-compensates_example =
    create-compensates (service 9 (ok tt)) (actor 1) upload checked (text "k")
      (no_rows_yet (some down ∷ [])) (no_rows_yet (some down ∷ [])) (no_rows_yet (some down ∷ []))
      (none, read_out) upload-ok refl (put-whole (ok tt) (no_rows_yet (some down ∷ [])))
      (no_rows_yet []) (no_rows_yet []) lost_row (ok tt) refl row-lost refl

abbrev new_row : DocumentRow
new_row = record (row_in pending) {
  id = pos 2;
  storage_key = key_of 9;
  created_at = some 7;
  updated_at = some 7;
}

abbrev with_row : Database
with_row = record (database_of (new_row ∷ []) []) { next_document = 3 }

abbrev published : Document
published = set_public_url (service 9 (err down)) (document_from_db new_row)

created :
    create (service 9 (err down)) (actor 1) upload (no_rows_yet [])
    ≡ (ok (published, some (caused err_queue_unavailable down)), with_row)
unfolding create check_upload api_example.Documents.upload_name api_example.Text.Path.base
    api_example.Text.replace_byte trim_space text api_example.Text.text_eq
    api_example.Documents.is_member new_document_service api_example.Documents.normal_media_type
    api_example.Text.to_lower copy read_counting limited read_script script_size
    api_example.Documents.register is_eof Documents.create api_example.Sql.Documents.create_document
    api_example.Sql.Documents.document_violation set_public_url storage_key document_from_db
    api_example.Sql.Documents.are_encoded api_example.Sql.is_encoded api_example.Text.trim
    api_example.Text.Decimal.format_int
created = refl

create-IsCreated_example :
    IsCreated
      (service 9 (err down))
      (actor 1)
      upload
      (no_rows_yet [])
      published
      (some (caused err_queue_unavailable down))
      with_row
create-IsCreated_example =
    create-IsCreated (service 9 (err down)) (actor 1) upload published
      (some (caused err_queue_unavailable down)) (no_rows_yet []) with_row created

key-accepted : validate_key (text "a/b") ≡ none
unfolding validate_key text api_example.Text.contains api_example.Text.text_eq
    api_example.Text.Path.clean api_example.Text.Segments.join split
key-accepted = refl

validate_key-accepts_example : (text "a/b" ≡ dot_dot) ⊎ All IsEntry (split slash (text "a/b"))
validate_key-accepts_example = validate_key-accepts (text "a/b") key-accepted
