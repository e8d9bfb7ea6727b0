-- ===== src/Storage/Local.antt =====
-- internal/storage/local.go: `Local`, the object storage in a directory, over the calls of os and
-- path/filepath that it makes, which are a parameter.
pub mod Laws
pub mod Reading
pub mod Atomic
pub mod Copying
use api_example.Prelude.{
  Bool, true, false, ◌||◌, Option, none, some, List, [], ◌∷◌, if◌then◌else◌, ℕ,
}
use api_example.Prelude.Int.{ℤ}
use api_example.Text.{Text, text, text_eq, has_prefix, is_empty, trim_space}
use api_example.Text.Path.{dot_dot, path_join, dir}
use api_example.Errors.{
  Error, plain, wrapped, sentinel, canceled, not_exist, is_sentinel, is_app, wrap,
}
use api_example.Errors.Catalog.{err_storage_object_not_found}
use api_example.Exec.{Result, ok, err, Exec, Done, return, fail, attempt, from_result, ◌>>=◌, ◌>>◌}
use api_example.Ports.{StoredObject, ObjectStorage}
use api_example.Storage.{validate_key, parent_prefix}
use api_example.Upload.{Script, CountingReader, ReadResult, read_counting}

-- `contextReader`; `interrupts` says of each Read to come whether the context is done by then.
pub record ContextReader : Type 0 where
  pub reader : CountingReader
  pub interrupts : List Bool

abbrev passed : List Bool → ReadResult × CountingReader → ReadResult × ContextReader
passed rest (r, c) = (r, record { reader = c; interrupts = rest })

-- `contextReader.Read`
unfoldable pub read_context : ℕ → ContextReader → ReadResult × ContextReader
read_context size r = elim r.interrupts [
  | [] ↦ passed [] (read_counting size r.reader)
  | true ∷ rest ↦
      (record { bytes = []; error = some (sentinel canceled) }, record r { interrupts = rest })
  | false ∷ rest ↦ passed rest (read_counting size r.reader)
]

-- The context, and the functions of the standard library. `copy_in` is io.Copy to an open file,
-- `open_file` is os.Open with the bytes of the file, and `file_size` its Stat.
pub record FileSystem (W : Type 0) : Type 0 where
  pub is_done : W → Bool
  pub interrupts : W → List Bool
  pub absolute : Text → W → Result Text
  pub relative : Text → Text → Result Text
  pub eval_symlinks : Text → W → Result Text
  pub mkdir_all : Text → Exec W Done
  pub create_temp : Text → Exec W Text
  pub copy_in : Text → ContextReader → W → (Option Error × ContextReader) × W
  pub close : Text → Exec W Done
  pub rename : Text → Text → Exec W Done
  pub remove : Text → Exec W Done
  pub open_file : Text → Exec W Script
  pub file_size : Text → Exec W ℤ

module _ {W : Type 0} (fs : FileSystem W) where
  -- fmt.Errorf with %w, around a call.
  abbrev pub labelled : Text → {A : Type 0} → Result A → Result A
  labelled label (ok a) = ok a
  labelled label (err e) = err (wrapped label e [])

  abbrev pub wrapping : Text → {A : Type 0} → Exec W A → Exec W A
  wrapping label m w = let (r, w') = m w in (labelled label r, w')

  abbrev pub resolved : Text → Exec W Text
  resolved path w = (fs.eval_symlinks path w, w)

  -- `NewLocal`, with the root that it resolves.
  unfoldable pub new_local : Text → Exec W Text
  new_local root =
      if is_empty (trim_space root) then fail (plain (text "local storage root is empty")) else do
        path ← wrapping (text "resolve storage root: ") (λ w. (fs.absolute root w, w))
        wrapping (text "create storage root: ") (fs.mkdir_all path)
        wrapping (text "evaluate storage root: ") (resolved path)

  module _ (root : Text) where
    abbrev escapes : Result Text → Bool
    escapes (err e) = true
    escapes (ok relative) = text_eq relative dot_dot || has_prefix relative parent_prefix

    abbrev pub inside : Text → Exec W Done
    inside path =
        if escapes (fs.relative root path)
        then fail (plain (text "object path escapes storage root"))
        else return tt

    -- `verifyInside`
    unfoldable pub verify_inside : Text → Exec W Done
    verify_inside candidate = do
      path ← wrapping (text "evaluate object directory: ") (resolved candidate)
      inside path

    abbrev pub path_of : Option Error → Text → Result Text
    path_of (some e) key = err e
    path_of none key = ok (path_join root key)

    -- `pathForWrite`
    unfoldable pub path_for_write : Text → Result Text
    path_for_write key = path_of (validate_key key) key

    abbrev pub existing : Result Text → Exec W Text
    existing (err e) =
        if is_sentinel e not_exist
        then fail (wrap err_storage_object_not_found e)
        else fail (wrapped (text "evaluate object path: ") e [])
    existing (ok path) = verify_inside path >> return path

    -- `pathForExisting`
    unfoldable pub path_for_existing : Text → Exec W Text
    path_for_existing key = do
      target ← from_result (path_for_write key)
      path ← attempt (resolved target)
      existing path

    -- The steps of `Put` up to the temporary file, whose name they give.
    abbrev pub prepare : Text → Exec W Text
    prepare target =
        wrapping (text "create object directory: ") (fs.mkdir_all (dir target))
        >> (verify_inside (dir target)
            >> wrapping (text "create temporary object: ") (fs.create_temp (dir target)))

    abbrev pub publish : Text → Text → Exec W Done
    publish target name =
        wrapping (text "close object: ") (fs.close name)
        >> wrapping (text "publish object: ") (fs.rename name target)

    abbrev pub error_of : Result Done → Option Error
    error_of (ok d) = none
    error_of (err e) = some e

    abbrev pub published : ContextReader → Result Done × W → (Option Error × CountingReader) × W
    published r (done, w) = ((error_of done, r.reader), w)

    abbrev pub copied_in :
        Text → Text → (Option Error × ContextReader) × W → (Option Error × CountingReader) × W
    copied_in target name ((some e, r), w) =
        ((some (wrapped (text "write object: ") e []), r.reader), (fs.close name w).1)
    copied_in target name ((none, r), w) = published r (publish target name w)

    -- The removal of the temporary file at the end.
    abbrev pub removing :
        Text → (Option Error × CountingReader) × W → (Option Error × CountingReader) × W
    removing name (answer, w) = (answer, (fs.remove name w).1)

    -- What follows the temporary file.
    abbrev pub fill : Text → Text → CountingReader → W → (Option Error × CountingReader) × W
    fill target name c w = removing name (
        copied_in target name
          (fs.copy_in name (record { reader = c; interrupts = fs.interrupts w }) w))

    abbrev pub put_in :
        Text → CountingReader → Result Text × W → (Option Error × CountingReader) × W
    put_in target c (err e, w) = ((some e, c), w)
    put_in target c (ok name, w) = fill target name c w

    abbrev pub put_target : Result Text → CountingReader → W → (Option Error × CountingReader) × W
    put_target (err e) c w = ((some e, c), w)
    put_target (ok target) c w = put_in target c (prepare target w)

    -- `Put`, which does not use the media type.
    unfoldable pub put : Text → Text → CountingReader → W → (Option Error × CountingReader) × W
    put key media_type c w =
        let answer = put_target (path_for_write key) c w in
        if fs.is_done w then ((some (sentinel canceled), c), w) else answer

    abbrev pub unless_done : {A : Type 0} → Exec W A → Exec W A
    unless_done m w = if fs.is_done w then (err (sentinel canceled), w) else m w

    abbrev pub opened : Result Script → Exec W Script
    opened (err e) =
        if is_sentinel e not_exist
        then fail (wrap err_storage_object_not_found e)
        else fail (wrapped (text "open object: ") e [])
    opened (ok body) = return body

    -- `Open`
    unfoldable pub open_object : Text → Exec W StoredObject
    open_object key = unless_done do
      target ← path_for_existing key
      file ← attempt (fs.open_file target)
      body ← opened file
      size ← wrapping (text "stat object: ") (fs.file_size target)
      return
          (record { body = body; size_bytes = size; media_type = text "application/octet-stream" })

    abbrev removed : Result Done → Exec W Done
    removed (err e) =
        if is_sentinel e not_exist then return tt else fail (wrapped (text "delete object: ") e [])
    removed (ok d) = return tt

    -- An object that is not there needs no removal.
    abbrev remove_found : Result Text → Exec W Done
    remove_found (err e) =
        if is_sentinel e not_exist || is_app e err_storage_object_not_found
        then return tt
        else fail e
    remove_found (ok target) = attempt (fs.remove target) >>= removed

    -- `Delete`
    unfoldable pub delete : Text → Exec W Done
    delete key = unless_done (attempt (path_for_existing key) >>= remove_found)

    abbrev pub local_storage : ObjectStorage W
    local_storage = record { put = put; open_object = open_object; delete = delete }
