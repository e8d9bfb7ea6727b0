-- ===== src/Documents.antt =====
-- internal/service/document_service.go: `DocumentService` over the three ports.
pub mod Access
pub mod Create
pub mod Created
pub mod Failure
use api_example.Prelude.{
  ℕ, suc, ◌+◌, Bool, true, false, not, ◌&&◌, ◌||◌, Option, none, some, List, [], ◌∷◌, ◌++◌, map,
  ltb, if◌then◌else◌,
}
use api_example.Prelude.Int.{ℤ, pos, ltb_ℤ, leb_ℤ, int_eq}
use api_example.Text.{
  Text, text, text_eq, is_empty, trim_space, trim_left, trim_right, trim, to_lower, replace_byte,
}
use api_example.Text.Path.{slash, dot, base, path_join}
use api_example.Text.Decimal.{format_int}
use api_example.Errors.{
  Error, app, wrapped, wrap, with_message, is_sentinel, upload_too_large, error_text,
}
use api_example.Errors.Catalog.{
  err_document_unauthorized, err_document_invalid_request, err_document_forbidden,
  err_document_not_ready, err_storage_unavailable, err_queue_unavailable,
}
use api_example.Exec.{
  Result, ok, err, Exec, Done, return, fail, fail_if, attempt, call, from_result, ◌>>=◌, ◌>>◌,
}
use api_example.Domain.{Document, NewDocument, Actor, is_admin, DocumentJob, Page}
use api_example.Domain.Status.{ready, status_eq}
use api_example.Domain.Pagination.{Pagination, normalize_pagination}
use api_example.Upload.{Script, CountingReader, limited}
use api_example.Ports.{StoredObject, DocumentRepository, ObjectStorage, DocumentQueue}

-- `UploadInput`, whose Body may be nil.
pub record UploadInput : Type 0 where
  pub original_name : Text
  pub media_type : Text
  pub size_bytes : ℤ
  pub body : Option Script

-- `DocumentService`. The configuration is checked to have a positive `max_upload_bytes`
-- (internal/config/config.go). `key_generator` draws a random key or fails; `unicode_lower` is the
-- Unicode table behind strings.ToLower, and `pg_text` the texts of the errors of PostgreSQL.
pub record DocumentService (W : Type 0) : Type 0 where
  pub repository : DocumentRepository W
  pub storage : ObjectStorage W
  pub queue : DocumentQueue W
  pub max_upload_bytes : ℕ
  pub allowed_media_type : List Text
  pub cdn_url : Text
  pub storage_key_prefix : Text
  pub key_generator : Exec W Text
  pub error_message : Error → Text
  pub unicode_lower : Text → Text

-- Membership in the set of allowed media types.
unfoldable pub is_member : Text → List Text → Bool
is_member t [] = false
is_member t (u ∷ us) = text_eq t u || is_member t us

-- The normal form of a media type.
unfoldable pub normal_media_type : (Text → Text) → Text → Text
normal_media_type unicode_lower t = to_lower unicode_lower (trim_space t)

-- `NewDocumentService`
unfoldable pub new_document_service :
    {W : Type 0}
    → DocumentRepository W
    → ObjectStorage W
    → DocumentQueue W
    → ℕ
    → List Text
    → Text
    → Text
    → Exec W Text
    → (Error → Text)
    → (Text → Text)
    → DocumentService W
new_document_service repository storage queue max_upload_bytes allowed cdn_url prefix generate
      message lower =
    record {
      repository = repository;
      storage = storage;
      queue = queue;
      max_upload_bytes = max_upload_bytes;
      allowed_media_type = map (normal_media_type lower) allowed;
      cdn_url = trim_right slash (trim_space cdn_url);
      storage_key_prefix = trim slash (trim_space prefix);
      key_generator = generate;
      error_message = message;
      unicode_lower = lower;
    }

-- The name under which an upload is recorded.
unfoldable pub upload_name : Text → Text
upload_name original_name = base (replace_byte 92 slash (trim_space original_name))

abbrev is_some {ℓ} : {A : Type ℓ} → Option A → Bool
is_some none = false
is_some (some a) = true

abbrev invalid_request : Text → Error
invalid_request message = with_message err_document_invalid_request message

-- An upload that has passed the checks of `Create`.
pub record CheckedUpload : Type 0 where
  pub name : Text
  pub media_type : Text
  pub body : Script

abbrev check_body : ℕ → ℤ → Text → Text → Option Script → Result CheckedUpload
check_body max size name media_type none = err (invalid_request (text "file size is invalid"))
check_body max size name media_type (some body) =
    if leb_ℤ size (pos 0) || ltb_ℤ (pos max) size
    then err (invalid_request (text "file size is invalid"))
    else ok (record { name = name; media_type = media_type; body = body })

-- `authorizeDocument`
unfoldable pub authorize_document : Actor → Document → Option Error
authorize_document actor document =
    if leb_ℤ actor.user_id (pos 0)
    then some (app err_document_unauthorized)
    else if not (is_admin actor) && not (int_eq document.owner_id actor.user_id)
    then some (app err_document_forbidden)
    else none

module _ {W : Type 0} (s : DocumentService W) where
  -- The checks at the head of `Create`.
  unfoldable pub check_upload : Actor → UploadInput → Result CheckedUpload
  check_upload actor input =
      let name = upload_name input.original_name in
      let media_type = normal_media_type s.unicode_lower input.media_type in
      if leb_ℤ actor.user_id (pos 0)
      then err (app err_document_unauthorized)
      else if is_empty name || text_eq name dot
      then err (invalid_request (text "file name is required"))
      else if not (is_member media_type s.allowed_media_type)
      then err (invalid_request (text "media type is not allowed"))
      else check_body s.max_upload_bytes input.size_bytes name media_type input.body

  -- fmt.Sprintf("documents/%d/%s", actor.UserID, id), below the prefix if there is one.
  unfoldable pub storage_key : ℤ → Text → Text
  storage_key user_id id =
      let key = text "documents/" ++ (format_int user_id ++ slash ∷ id) in
      if is_empty s.storage_key_prefix then key else path_join s.storage_key_prefix key

  -- `setPublicURL`
  unfoldable pub set_public_url : Document → Document
  set_public_url document =
      if is_empty s.cdn_url || is_empty document.storage_key
      then document
      else record document { url = s.cdn_url ++ slash ∷ trim_left slash document.storage_key }

  abbrev generated : Result Text → Exec W Text
  generated (ok id) = return id
  generated (err e) = fail (wrapped (text "generate storage key: ") e [])

  -- The error of `Put`, as `Create` returns it.
  abbrev put_error : Error → Error
  put_error e =
      if is_sentinel e upload_too_large
      then invalid_request (text "file exceeds maximum upload size")
      else wrap err_storage_unavailable e

  abbrev stored : Option Error → Exec W Done
  stored none = return tt
  stored (some e) = fail (put_error e)

  abbrev compensated : Error → Result Done → Exec W Document
  compensated e (ok d) = fail e
  compensated e (err cleanup) = fail (
      wrapped (text "persist document: ") e
        (text "; compensate storage: " ++ s.error_message cleanup))

  -- A row that could not be written takes the object with it.
  abbrev persisted : Text → Result Document → Exec W Document
  persisted key (ok document) = return document
  persisted key (err e) = do cleanup ← attempt (s.storage.delete key); compensated e cleanup

  abbrev enqueued : Document → Result Done → Exec W (Document × Option Error)
  enqueued document (ok d) = return (document, none)
  enqueued document (err e) = return (document, some (wrap err_queue_unavailable e))

  -- The part of `Create` after `Put`: the row, with compensation, and the job.
  unfoldable pub register : Actor → CheckedUpload → Text → ℕ → Exec W (Document × Option Error)
  register actor upload key count = do
    row ← attempt (
        s.repository.create (record {
          owner_id = actor.user_id;
          original_name = upload.name;
          media_type = upload.media_type;
          size_bytes = pos count;
          storage_key = key;
        }))
    document ← persisted key row
    sent ←
        attempt
          (s.queue.enqueue (record { document_id = (set_public_url document).id; attempt = pos 1 }))
    enqueued (set_public_url document) sent

  -- `Create`. The document comes with an error beside it where the enqueuing failed; any other error
  -- comes with no document.
  unfoldable pub create : Actor → UploadInput → Exec W (Document × Option Error)
  unfolding register
  create actor input = do
    upload ← from_result (check_upload actor input)
    drawn ← attempt s.key_generator
    id ← generated drawn
    put ← call (
        s.storage.put (storage_key actor.user_id id) upload.media_type
          (limited s.max_upload_bytes upload.body))
    stored put.0
    register actor upload (storage_key actor.user_id id) put.1.count

  abbrev or_fail : Option Error → Exec W Done
  or_fail none = return tt
  or_fail (some e) = fail e

  -- `Get`
  unfoldable pub get : Actor → ℤ → Exec W Document
  get actor id = do
    document ← s.repository.get_by_id id
    or_fail (authorize_document actor document)
    return (set_public_url document)

  abbrev owner_filter : Actor → Option ℤ
  owner_filter actor = if is_admin actor then none else some actor.user_id

  -- `List`
  unfoldable pub list : Actor → Pagination → Exec W (Page Document)
  list actor pagination = do
    fail_if (leb_ℤ actor.user_id (pos 0)) (app err_document_unauthorized)
    let normal = normalize_pagination pagination.page pagination.page_size
    found ← s.repository.list (owner_filter actor) normal
    return (record {
      items = map set_public_url found.0;
      page = normal.page;
      page_size = normal.page_size;
      total_items = found.1;
    })

  -- `Download`
  unfoldable pub download : Actor → ℤ → Exec W (StoredObject × Document)
  download actor id = do
    document ← get actor id
    fail_if (not (status_eq document.status ready)) (app err_document_not_ready)
    object ← s.storage.open_object document.storage_key
    return (object, document)

  -- `Delete`
  unfoldable pub delete : Actor → ℤ → Exec W Done
  delete actor id = do document ← get actor id; s.repository.soft_delete document.id
