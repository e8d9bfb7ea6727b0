-- ===== src/Storage/S3.antt =====
-- internal/storage/s3.go: the object storage over the S3 client, which is a parameter.
use api_example.Prelude.{String, Bool, false, ◌||◌, Option, none, some, if◌then◌else◌, str_eq}
use api_example.Prelude.Int.{ℤ, pos}
use api_example.Text.{Text, text}
use api_example.Errors.{Error, wrap}
use api_example.Errors.Catalog.{err_storage_unavailable, err_storage_object_not_found}
use api_example.Exec.{Result, ok, err, Exec, Done}
use api_example.Ports.{StoredObject, ObjectStorage}
use api_example.Storage.{validate_key}
use api_example.Upload.{Script, CountingReader}

-- The output of GetObject, whose header fields may be missing.
pub record GetObjectOutput : Type 0 where
  pub body : Script
  pub content_type : Option Text
  pub content_length : Option ℤ

-- What GetObject returns: an output, or an error, with what errors.As finds in that: a
-- *types.NoSuchKey, and the code of a smithy.APIError.
pub data GetObjectResult : Type 0 where
  found : GetObjectOutput → GetObjectResult
  refused : Error → Bool → Option String → GetObjectResult

-- `s3API`: the bucket, the key, and the content type and body of PutObject.
pub record S3Api (W : Type 0) : Type 0 where
  pub put_object : Text → Text → Text → CountingReader → W → (Option Error × CountingReader) × W
  pub get_object : Text → Text → W → GetObjectResult × W
  pub delete_object : Text → Text → Exec W Done

abbrev unavailable : Option Error → Option Error
unavailable none = none
unavailable (some e) = some (wrap err_storage_unavailable e)

abbrev is_not_found_code : Option String → Bool
is_not_found_code none = false
is_not_found_code (some code) = str_eq code "NoSuchKey" || str_eq code "NotFound"

abbrev content_type_or_default : Option Text → Text
content_type_or_default none = text "application/octet-stream"
content_type_or_default (some media_type) = media_type

abbrev size_or_zero : Option ℤ → ℤ
size_or_zero none = pos 0
size_or_zero (some size) = size

abbrev to_stored_object : GetObjectResult → Result StoredObject
to_stored_object (found output) = ok (record {
  body = output.body;
  size_bytes = size_or_zero output.content_length;
  media_type = content_type_or_default output.content_type;
})
to_stored_object (refused e no_such_key code) =
    if no_such_key || is_not_found_code code
    then err (wrap err_storage_object_not_found e)
    else err (wrap err_storage_unavailable e)

-- The methods of `S3`: each is called with the key and the outcome of `validateKey`.
module _ {W : Type 0} (client : S3Api W) (bucket : Text) where
  abbrev put_valid :
      Option Error → Text → Text → CountingReader → W → (Option Error × CountingReader) × W
  put_valid (some e) key media_type reader w = ((some e, reader), w)
  put_valid none key media_type reader w =
      let ((e, reader'), w') = client.put_object bucket key media_type reader w in
      ((unavailable e, reader'), w')

  unfoldable pub put : Text → Text → CountingReader → W → (Option Error × CountingReader) × W
  put key = put_valid (validate_key key) key

  abbrev open_valid : Option Error → Text → Exec W StoredObject
  open_valid (some e) key w = (err e, w)
  open_valid none key w =
      let (result, w') = client.get_object bucket key w in (to_stored_object result, w')

  -- `Open`
  unfoldable pub open_object : Text → Exec W StoredObject
  open_object key = open_valid (validate_key key) key

  abbrev delete_result : Result Done → Result Done
  delete_result (ok d) = ok d
  delete_result (err e) = err (wrap err_storage_unavailable e)

  abbrev delete_valid : Option Error → Text → Exec W Done
  delete_valid (some e) key w = (err e, w)
  delete_valid none key w =
      let (result, w') = client.delete_object bucket key w in (delete_result result, w')

  unfoldable pub delete : Text → Exec W Done
  delete key = delete_valid (validate_key key) key

  -- `newS3Store`
  abbrev pub new_s3_store : ObjectStorage W
  new_s3_store = record { put = put; open_object = open_object; delete = delete }
