-- ===== src/Documents/Create.antt =====
-- `Create`: which uploads it takes, what it records of them, and what it does when a port fails.
use api_example.Prelude.{
  ℕ, suc, ◌≤◌, ◌≡◌, sym, ap, ◌∙◌, ◌≢◌, ◌↔◌, true, false, refl, ◌||◌, Option, none, some, List, [],
  arith, Bool-cases, inl, inr, length, leb,
}
use api_example.Prelude.Int.{pos, ◌≤ℤ◌, leb_ℤ, ltb_ℤ}
use api_example.Text.{Text, text_eq, text_eq_iff, is_empty}
use api_example.Text.Path.{dot}
use api_example.Exec.{ok}
use api_example.Domain.{Actor}
use api_example.Ports.{ObjectStorage}
use api_example.Upload.{Script, CountingReader, limited, read_counting}
use api_example.Upload.Copy.{copy, script_size, content, final_error, is_eof, IsLively}
use api_example.Upload.Bounds.{copy-limited, take_all}
use api_example.Documents.{
  DocumentService, UploadInput, CheckedUpload, upload_name, normal_media_type, is_member,
  check_upload,
}

-- What `Create` asks of an upload before it touches anything.
pub record IsAcceptable {W : Type 0} (s : DocumentService W) (actor : Actor) (input : UploadInput)
    (u : CheckedUpload) : Type 0 where
  pub authenticated : pos 1 ≤ℤ actor.user_id
  pub name : u.name ≡ upload_name input.original_name
  pub named : (u.name ≢ []) × (u.name ≢ dot)
  pub media_type : u.media_type ≡ normal_media_type s.unicode_lower input.media_type
  pub allowed : is_member u.media_type s.allowed_media_type ≡ true
  pub size : (pos 1 ≤ℤ input.size_bytes) × (input.size_bytes ≤ℤ pos s.max_upload_bytes)
  pub body : input.body ≡ some u.body

accepted :
    {W : Type 0} (s : DocumentService W) (actor : Actor) (input : UploadInput) (u : CheckedUpload)
    → check_upload s actor input ≡ ok u
    → IsAcceptable s actor input u
unfolding check_upload
accepted s actor input u h = record {
  authenticated = ground arith;
  name = ground arith;
  named = ground (arith, text_eq_iff (upload_name input.original_name) dot);
  media_type = ground arith;
  allowed = ground arith;
  size = ground arith;
  body = ground arith;
}

acceptable :
    {W : Type 0} (s : DocumentService W) (actor : Actor) (input : UploadInput) (u : CheckedUpload)
    → IsAcceptable s actor input u
    → check_upload s actor input ≡ ok u
unfolding check_upload
acceptable s actor input u h =
    let known : leb_ℤ actor.user_id (pos 0) ≡ false = ground (arith, h.authenticated) in
    let named : (is_empty u.name || text_eq u.name dot) ≡ false =
      ground (arith, h.named, text_eq_iff u.name dot) in
    let sized : (leb_ℤ input.size_bytes (pos 0) || ltb_ℤ (pos s.max_upload_bytes) input.size_bytes)
        ≡ false =
      ground (arith, h.size) in
    rw (known, sym h.name, named, sym h.media_type, h.allowed, h.body, sized) refl

-- The checks pass exactly the acceptable uploads: the actor is authenticated, the recorded name is
-- neither empty nor ".", the media type in its normal form is allowed, the declared size is between
-- 1 and the maximum, and there is a body.
pub check_upload-IsAcceptable :
    {W : Type 0} (s : DocumentService W) (actor : Actor) (input : UploadInput) (u : CheckedUpload)
    → (check_upload s actor input ≡ ok u) ↔ IsAcceptable s actor input u
check_upload-IsAcceptable s actor input u = (accepted s actor input u, acceptable s actor input u)

-- The storage keeps what it copies off the reader: after a successful Put at one of its keys the
-- object holds the bytes that a copy through some buffer has written, and the reader is where that
-- copy left it.
pub record IsCopying {W : Type 0} (storage : ObjectStorage W) (IsKey : Text → Type 0)
    (object : W → Text → Option (List ℕ)) : Type 0 where
  pub copied :
      (key media_type : Text) (c c' : CountingReader) (w w' : W)
      → IsKey key
      → storage.put key media_type c w ≡ ((none, c'), w')
      → (size : ℕ) × (bytes : List ℕ) × (suc 0 ≤ size)
        × (copy (read_counting size) (suc (script_size c.reader.reader)) [] c
            ≡ some (record { written = bytes; error = none; reader = c' }))
        × (object w' key ≡ some bytes)

-- With a storage that keeps what it copies off its reader, a Put that succeeds at one of its keys on
-- the limited reader of a body that never yields zero bytes without an error has stored the whole body, that
-- body ends with io.EOF and has at most the maximum of bytes, and the count, which becomes the
-- recorded size, is their number. A body with more bytes is never stored.
pub put-stores_all :
    {W : Type 0} (s : DocumentService W) (IsKey : Text → Type 0)
    (object : W → Text → Option (List ℕ)) (key media_type : Text) (body : Script)
    (c : CountingReader) (w w' : W)
    → IsCopying s.storage IsKey object
    → IsKey key
    → IsLively body
    → s.storage.put key media_type (limited s.max_upload_bytes body) w ≡ ((none, c), w')
    → (object w' key ≡ some (content body))
      × (length (content body) ≤ s.max_upload_bytes)
      × (is_eof (final_error body) ≡ true)
      × (c.count ≡ length (content body))
unfolding limited
put-stores_all s IsKey object key media_type body c w w' law named l h =
    let (size, bytes, positive, ran, kept) =
      law.copied key media_type (limited s.max_upload_bytes body) c w w' named h in
    let (c', expected, counted) =
      copy-limited size (suc (script_size body)) s.max_upload_bytes body positive l (omega arith) in
    let same = sym ran ∙ expected in
    elim (Bool-cases (leb (length (content body)) s.max_upload_bytes)) [
      | inl fits ↦
          let short : length (content body) ≤ s.max_upload_bytes = ground arith in
          let all = take_all s.max_upload_bytes (content body) short in
          (
            kept ∙ ap (λ xs. some xs) (cc (same, all)),
            short,
            ground (arith, same, fits),
            cc (same, counted, all),
          )
      | inr over ↦ absurd (ground (arith, same, over))
    ]
