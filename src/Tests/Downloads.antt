-- ===== src/Tests/Downloads.antt =====
-- An upload of five bytes to the storage in a directory, and its download.
use api_example.Prelude.{◌≡◌, refl, false, none, [], ◌∷◌}
use api_example.Prelude.Int.{pos}
use api_example.Text.{Text, text, has_prefix}
use api_example.Text.Path.{path_join}
use api_example.Errors.{sentinel, eof}
use api_example.Exec.{ok}
use api_example.Ports.{StoredObject}
use api_example.Documents.{DocumentService}
use api_example.Upload.{Script, last, CountingReader, limited}
use api_example.Upload.Copy.{content}
use api_example.Storage.Local.{local_storage, put, open_object}
use api_example.Storage.Local.Copying.{IsKey}
use api_example.Storage.Local.Reading.{open_object-put}
use api_example.Tests.Fixtures.{hello, storing}
use api_example.Tests.Files.{Files, disk, root, disk-IsFileSystem}

abbrev on_disk : DocumentService Files
on_disk = storing (local_storage disk root)

abbrev blank : Files
blank q = none

abbrev key : Text
key = b'k' ∷ []

abbrev after_upload : Files
after_upload = (on_disk.storage.put key [] (limited 9 hello) blank).1

abbrev read_to_end : CountingReader
read_to_end = record {
  reader = record { reader = last [] (sentinel eof); remaining = 4; checked_overflow = false };
  count = 5;
}

abbrev downloaded : StoredObject
downloaded = record {
  body = last (104 ∷ 101 ∷ 108 ∷ 108 ∷ 111 ∷ []) (sentinel eof);
  size_bytes = pos 5;
  media_type = text "application/octet-stream";
}

key-IsKey : IsKey disk root (λ w. w) disk-IsFileSystem key
unfolding path_join has_prefix api_example.Text.Path.base api_example.Text.Segments.join
    api_example.Text.Segments.split api_example.Text.text_eq
key-IsKey = refl

upload-works :
    on_disk.storage.put key [] (limited 9 hello) blank ≡ ((none, read_to_end), after_upload)
unfolding put api_example.Storage.Local.path_for_write api_example.Storage.validate_key
    api_example.Text.contains api_example.Text.text_eq api_example.Text.Path.clean
    api_example.Text.Segments.join api_example.Text.Segments.split
    api_example.Storage.Local.verify_inside api_example.Text.Path.dir path_join
    api_example.Upload.Copy.copy api_example.Storage.Local.read_context
    api_example.Upload.read_counting limited api_example.Upload.read_script
    api_example.Upload.Copy.script_size api_example.Upload.Copy.is_eof has_prefix
upload-works = refl

download-works : on_disk.storage.open_object key after_upload ≡ (ok downloaded, after_upload)
unfolding put open_object api_example.Storage.Local.path_for_existing
    api_example.Storage.Local.path_for_write api_example.Storage.validate_key
    api_example.Text.contains api_example.Text.text_eq api_example.Text.Path.clean
    api_example.Text.Segments.join api_example.Text.Segments.split
    api_example.Storage.Local.verify_inside api_example.Text.Path.dir path_join
    api_example.Upload.Copy.copy api_example.Storage.Local.read_context
    api_example.Upload.read_counting limited api_example.Upload.read_script
    api_example.Upload.Copy.script_size api_example.Upload.Copy.is_eof has_prefix
download-works = refl

open_object-put_example : content downloaded.body ≡ content hello
open_object-put_example =
    open_object-put disk root (λ w. w) disk-IsFileSystem on_disk key [] hello read_to_end downloaded
      blank after_upload after_upload refl key-IsKey tt upload-works refl download-works
