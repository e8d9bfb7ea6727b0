-- ===== src/Storage/Local/Reading.antt =====
-- An object that was put is what is opened.
use api_example.Prelude.{
  ℕ, ◌≡◌, sym, ap, ◌∙◌, Bool, true, false, Option, none, some, List, [], if◌then◌else◌,
}
use mathlib.Core.Path.{subst}
use api_example.Text.{Text, text}
use api_example.Text.Path.{path_join}
use api_example.Errors.{Error, sentinel, canceled, not_exist, is_sentinel, wrap, wrapped}
use api_example.Errors.Catalog.{err_storage_object_not_found}
use api_example.Exec.{Result, ok, err, Exec, Done, attempt, fail, return, from_result, ◌>>=◌}
use api_example.Exec.Rules.{bind-inverts, attempt-inverts}
use api_example.Ports.{StoredObject}
use api_example.Upload.{Script, CountingReader, limited}
use api_example.Upload.Copy.{content, IsLively}
use api_example.Documents.{DocumentService}
use api_example.Documents.Create.{IsCopying, put-stores_all}
use api_example.Storage.{validate_key}
use api_example.Storage.Local.{
  FileSystem, path_of, path_for_write, path_for_existing, existing, resolved, verify_inside, opened,
  open_object, wrapping, local_storage,
}
use api_example.Storage.Local.Laws.{IsFileSystem}
use api_example.Storage.Local.Copying.{verify_inside-stays, IsKey, local_storage-IsCopying}
use api_example.Storage.Local.Copying

module _ {W : Type 0} (fs : FileSystem W) (root : Text) (files : W → Text → Option (List ℕ))
    (law : IsFileSystem fs files) where
  either_fails :
      {A : Type 0} (b : Bool) (d e : Error) (a : A) (w w' : W)
      → ◌≡◌ {A = Result A × W} ((if b then fail d else fail e) w) (ok a, w')
      → ⊥
  either_fails true d e a w w' h = cc
  either_fails false d e a w w' h = cc

  existing-ok :
      (r : Result Text) (path : Text) (w w' : W)
      → existing fs root r w ≡ (ok path, w')
      → (r ≡ ok path) × (w' ≡ w)
  existing-ok (err e) path w w' h = absurd (
      either_fails (is_sentinel e not_exist) (wrap err_storage_object_not_found e)
        (wrapped (text "evaluate object path: ") e []) path w w' h)
  existing-ok (ok p) path w w' h =
      let (t, w1, inside_, rest) =
        bind-inverts (verify_inside fs root p) (λ x. return p) w w' path h in
      (
        ap (λ (q : Result Text × W). q.0) rest,
        sym (ap (λ (q : Result Text × W). q.1) rest)
            ∙ sym (ap (λ (q : Result Done × W). q.1) inside_)
            ∙ verify_inside-stays fs root files law p w,
      )

  path_for_existing-ok :
      (key path : Text) (w w' : W)
      → path_for_existing fs root key w ≡ (ok path, w')
      → (fs.eval_symlinks (path_join root key) w ≡ ok path) × (w' ≡ w)
  unfolding path_for_existing path_for_write
  path_for_existing-ok key path w w' h = by_key (validate_key key) h
    where
      by_key :
          (o : Option Error)
          → (from_result (path_of fs root o key) >>= λ target.
                attempt (resolved fs target) >>= existing fs root)
              w
            ≡ (ok path, w')
          → (fs.eval_symlinks (path_join root key) w ≡ ok path) × (w' ≡ w)
      by_key none k = existing-ok (fs.eval_symlinks (path_join root key) w) path w w' k
      by_key (some e) k = absurd cc

  -- The steps of `Open` after the path.
  abbrev with_size : Text → Script → Exec W StoredObject
  with_size target body = wrapping fs (text "stat object: ") (fs.file_size target) >>= λ size.
      return
        (record { body = body; size_bytes = size; media_type = text "application/octet-stream" })

  abbrev with_file : Text → Result Script → Exec W StoredObject
  with_file target file = opened fs root file >>= with_size target

  abbrev with_path : Text → Exec W StoredObject
  with_path target = attempt (fs.open_file target) >>= with_file target

  opened-ok :
      (r : Result Script) (body : Script) (w w' : W)
      → opened fs root r w ≡ (ok body, w')
      → r ≡ ok body
  opened-ok (ok b) body w w' h = ap (λ (q : Result Script × W). q.0) h
  opened-ok (err e) body w w' h = absurd (
      either_fails (is_sentinel e not_exist) (wrap err_storage_object_not_found e)
        (wrapped (text "open object: ") e []) body w w' h)

  not_done :
      {A : Type 0} (m : Exec W A) (done : Bool) (a : A) (w w' : W)
      → ◌≡◌ {A = Result A × W} (if done then (err (sentinel canceled), w) else m w) (ok a, w')
      → m w ≡ (ok a, w')
  not_done m true a w w' h = absurd cc
  not_done m false a w w' h = h

  body_same :
      {a b : StoredObject} {v v' : W}
      → ◌≡◌ {A = Result StoredObject × W} (ok a, v) (ok b, v')
      → b.body ≡ a.body
  body_same k = cc

  -- The body of an object that is opened is what os.Open gives for the file of its key.
  pub open_object-ok :
      (key : Text) (object : StoredObject) (w w' : W)
      → open_object fs root key w ≡ (ok object, w')
      → (path : Text) × (v : W) × (fs.eval_symlinks (path_join root key) w ≡ ok path)
        × (fs.open_file path w ≡ (ok object.body, v))
  unfolding open_object
  open_object-ok key object w w' h =
      let started =
        not_done (path_for_existing fs root key >>= with_path) (fs.is_done w) object w w' h in
      let (path, w1, found, rest) =
        bind-inverts (path_for_existing fs root key) with_path w w' object started in
      let (file, w2, reading, rest2) =
        bind-inverts (attempt (fs.open_file path)) (with_file path) w1 w' object rest in
      let (body, w3, is_open, rest3) =
        bind-inverts (opened fs root file) (with_size path) w2 w' object rest2 in
      let (resolves, stays) = path_for_existing-ok key path w w1 found in
      let is_body = sized body path object w3 w' rest3 in
      (
        path,
        w2,
        resolves,
        ap (fs.open_file path) (sym stays)
            ∙ attempt-inverts (fs.open_file path) file w1 w2 reading
            ∙ ap (λ r. (r, w2)) (opened-ok file body w2 w3 is_open ∙ ap (λ b. ok b) (sym is_body)),
      )
    where
      sized :
          (body : Script) (path : Text) (object : StoredObject) (v v' : W)
          → with_size path body v ≡ (ok object, v')
          → object.body ≡ body
      sized body path object v v' k =
          let (size, v1, _, last_) =
            bind-inverts (wrapping fs (text "stat object: ") (fs.file_size path))
              (λ size. return (record {
                body = body;
                size_bytes = size;
                media_type = text "application/octet-stream";
              }))
              v v' object k in
          body_same last_

  -- What is uploaded is what is downloaded: where a service has its storage in a directory, a Put of a
  -- body that never yields zero bytes without an error has succeeded, and an Open of the same key in
  -- the state that the Put has left succeeds, the object that is opened has the bytes of the body. The
  -- key's last segment does not begin with ".upload-", its file is not a link, and files behave as os
  -- documents.
  pub open_object-put :
      (s : DocumentService W) (key media_type : Text) (body : Script) (c : CountingReader)
      (object : StoredObject) (w w' w'' : W)
      → s.storage ≡ local_storage fs root
      → IsKey fs root files law key
      → IsLively body
      → s.storage.put key media_type (limited s.max_upload_bytes body) w ≡ ((none, c), w')
      → fs.eval_symlinks (path_join root key) w' ≡ ok (path_join root key)
      → s.storage.open_object key w' ≡ (ok object, w'')
      → content object.body ≡ content body
  open_object-put s key media_type body c object w w' w'' stored named lively written no_link read =
      let keeps =
        subst (λ x. IsCopying x (IsKey fs root files law) (Copying.object fs root files law))
          (sym stored) (local_storage-IsCopying fs root files law) in
      let (held, _, _, _) =
        put-stores_all s (IsKey fs root files law) (Copying.object fs root files law) key media_type
          body c w w' keeps named lively written in
      let (path, v, resolves, opening) = open_object-ok key object w' w'' (rw stored at read) in
      let here : path ≡ path_join root key = ok_eq (sym resolves ∙ no_link) in
      some_eq (sym (law.opened path object.body w' v opening) ∙ ap (files w') here ∙ held)
    where
      ok_eq : {a b : Text} → ◌≡◌ {A = Result Text} (ok a) (ok b) → a ≡ b
      ok_eq e = cc

      some_eq : {a b : List ℕ} → ◌≡◌ {A = Option (List ℕ)} (some a) (some b) → a ≡ b
      some_eq e = cc
