-- ===== src/Tests/Files.antt =====
-- The storage in a directory, over files that are a map from paths.
use api_example.Prelude.{
  ℕ, suc, ◌≡◌, refl, sym, ap, ◌∙◌, ◌≢◌, inl, inr, true, false, Option, none, some, List, [], ◌∷◌,
  arith, if◌then◌else◌, length, Bool-cases,
}
use api_example.Prelude.Int.{ℤ, pos}
use api_example.Text.{Text, text_eq, text_eq_iff, has_prefix}
use api_example.Text.Path.{base, path_join}
use api_example.Errors.{Error, sentinel, eof, not_exist}
use api_example.Exec.{Result, ok, err, Exec, Done}
use api_example.Documents.Create.{IsCopying}
use api_example.Upload.{Script, last, limited}
use api_example.Upload.Copy.{content, Copied, copy, script_size}
use api_example.Storage.Local.{FileSystem, ContextReader, read_context, put, local_storage}
use api_example.Storage.Local.Laws.{IsFileSystem, upload_mark}
use api_example.Storage.Local.Copying.{local_storage-IsCopying, IsKey, object}
use api_example.Storage.Local.Atomic.{put-keeps}
use api_example.Tests.Fixtures.{hello, down}

abbrev pub Files : Type 0
Files = Text → Option (List ℕ)

abbrev set : Text → Option (List ℕ) → Files → Files
set path content w q = if text_eq q path then content else w q

abbrev temporary : Text
temporary = upload_mark

abbrev created : Option (List ℕ) → Exec Files Text
created none w = (ok temporary, w)
created (some bytes) w = (err down, w)

abbrev ended :
    Text
    → ContextReader
    → Option (Copied ContextReader)
    → Files
    → (Option Error × ContextReader) × Files
ended name r none w = ((some down, r), w)
ended name r (some k) w = ((k.error, k.reader), set name (some k.written) w)

abbrev found : Option (List ℕ) → Result Script
found none = err (sentinel not_exist)
found (some bytes) = ok (last bytes (sentinel eof))

abbrev sized : Option (List ℕ) → Result ℤ
sized none = err (sentinel not_exist)
sized (some bytes) = ok (pos (length bytes))

abbrev pub disk : FileSystem Files
disk = record {
  is_done = λ w. false;
  interrupts = λ w. [];
  absolute = λ path w. ok path;
  relative = λ root path. ok path;
  eval_symlinks = λ path w. ok path;
  mkdir_all = λ path w. (ok tt, w);
  create_temp = λ folder w. created (w temporary) w;
  copy_in = λ name r w.
      ended name r (copy (read_context 4) (suc (script_size r.reader.reader.reader)) [] r) w;
  close = λ name w. (ok tt, w);
  rename = λ name target w. (ok tt, set target (w name) w);
  remove = λ name w. (ok tt, set name none w);
  open_file = λ path w. (found (w path), w);
  file_size = λ path w. (sized (w path), w);
}

set_same : (path : Text) (content : Option (List ℕ)) (w : Files) → set path content w path ≡ content
set_same path content w = rw ((text_eq_iff path path).1 refl)

set_other :
    (path q : Text) (content : Option (List ℕ)) (w : Files) → q ≢ path → set path content w q ≡ w q
set_other path q content w h = elim (Bool-cases (text_eq q path)) [
  | inl same ↦ absurd (h ((text_eq_iff q path).0 same))
  | inr other ↦ rw other
]

created_keeps : (o : Option (List ℕ)) (w : Files) (q : Text) → (created o w).1 q ≡ w q
created_keeps none w q = refl
created_keeps (some bytes) w q = refl

created_fresh :
    (o : Option (List ℕ)) (name : Text) (w w' : Files)
    → created o w ≡ (ok name, w')
    → (o ≡ none) × (name ≡ temporary)
created_fresh none name w w' h = (refl, cc)
created_fresh (some bytes) name w w' h = absurd cc

marked : has_prefix (base temporary) upload_mark ≡ true
unfolding has_prefix base
marked = refl

ended_keeps :
    (name q : Text) (r : ContextReader) (o : Option (Copied ContextReader)) (w : Files)
    → q ≢ name
    → (ended name r o w).1 q ≡ w q
ended_keeps name q r none w h = refl
ended_keeps name q r (some k) w h = set_other name q (some k.written) w h

ended_ok :
    (name : Text) (r r' : ContextReader) (o : Option (Copied ContextReader)) (w w' : Files)
    → ended name r o w ≡ ((none, r'), w')
    → (bytes : List ℕ) × (o ≡ some (record { written = bytes; error = none; reader = r' }))
      × (w' name ≡ some bytes)
ended_ok name r r' none w w' h = absurd cc
ended_ok name r r' (some k) w w' h =
    let failed : k.error ≡ none = ap (λ (p : (Option Error × ContextReader) × Files). p.0.0) h in
    let left : k.reader ≡ r' = ap (λ (p : (Option Error × ContextReader) × Files). p.0.1) h in
    (
      k.written,
      cc,
      sym (ap (λ (p : (Option Error × ContextReader) × Files). p.1 name) h)
          ∙ set_same name (some k.written) w,
    )

found-ok :
    (o : Option (List ℕ)) (body : Script) (w w' : Files)
    → ◌≡◌ {A = Result Script × Files} (found o, w) (ok body, w')
    → o ≡ some (content body)
unfolding content
found-ok none body w w' h = absurd cc
found-ok (some bytes) body w w' h = ap body_of (ap (λ (p : Result Script × Files). p.0) h)
  where
    body_of : Result Script → Option (List ℕ)
    body_of (ok b) = some (content b)
    body_of (err e) = none

pub disk-IsFileSystem : IsFileSystem disk (λ w. w)
disk-IsFileSystem = record {
  mkdir_keeps = λ path q w. refl;
  create_keeps = λ folder q bytes w h. created_keeps (w temporary) w q ∙ h;
  create_fresh = λ folder name w w' h.
      let (free, named) = created_fresh (w temporary) name w w' h in
      (ap w named ∙ free, rw named marked);
  copied = λ name r r' w w' h.
      let (bytes, ran, held) =
        ended_ok name r r' (copy (read_context 4) (suc (script_size r.reader.reader.reader)) [] r) w
          w' h in
      (4, bytes, omega arith, ran, held);
  copy_keeps = λ name q r w h.
      ended_keeps name q r (copy (read_context 4) (suc (script_size r.reader.reader.reader)) [] r) w
        h;
  close_keeps = λ name q w. refl;
  renamed = λ name target w w' h.
      sym (ap (λ (p : Result Done × Files). p.1 target) h) ∙ set_same target (w name) w;
  rename_keeps = λ name target q w a b. set_other target q (w name) w b;
  rename_fails = λ name target q e w w' h. absurd cc;
  opened = λ path body w w' h. found-ok (w path) body w w' h;
  remove_keeps = λ name q w h. set_other name q none w h;
}

abbrev pub root : Text
root = b'/' ∷ b'r' ∷ []

-- One object, whose key is "kk".
abbrev stored_before : Files
stored_before = set (b'/' ∷ b'r' ∷ b'/' ∷ b'k' ∷ b'k' ∷ []) (some (1 ∷ [])) (λ q. none)

held_before : stored_before (b'/' ∷ b'r' ∷ b'/' ∷ b'k' ∷ b'k' ∷ []) ≡ some (1 ∷ [])
unfolding text_eq
held_before = refl

new_path : path_join root (b'k' ∷ []) ≡ b'/' ∷ b'r' ∷ b'/' ∷ b'k' ∷ []
unfolding path_join api_example.Text.Segments.join api_example.Text.Segments.split text_eq
new_path = refl

other_path : (b'/' ∷ b'r' ∷ b'/' ∷ b'k' ∷ b'k' ∷ []) ≢ path_join root (b'k' ∷ [])
other_path e = different (e ∙ new_path)
  where
    different :
        ◌≢◌ {A = Text} (b'/' ∷ b'r' ∷ b'/' ∷ b'k' ∷ b'k' ∷ []) (b'/' ∷ b'r' ∷ b'/' ∷ b'k' ∷ [])
    different e = cc

put-keeps_example :
    (put disk root (b'k' ∷ []) [] (limited 9 hello) stored_before).1
      (b'/' ∷ b'r' ∷ b'/' ∷ b'k' ∷ b'k' ∷ [])
    ≡ some (1 ∷ [])
put-keeps_example =
    put-keeps disk root (λ w. w) disk-IsFileSystem (b'/' ∷ b'r' ∷ b'/' ∷ b'k' ∷ b'k' ∷ []) (1 ∷ [])
      (b'k' ∷ []) [] (put disk root (b'k' ∷ []) [] (limited 9 hello) stored_before).0.0
      (limited 9 hello) (put disk root (b'k' ∷ []) [] (limited 9 hello) stored_before).0.1
      stored_before (put disk root (b'k' ∷ []) [] (limited 9 hello) stored_before).1 held_before
      refl (inr other_path)

local_storage-IsCopying_example :
    IsCopying
      (local_storage disk root)
      (IsKey disk root (λ w. w) disk-IsFileSystem)
      (object disk root (λ w. w) disk-IsFileSystem)
local_storage-IsCopying_example = local_storage-IsCopying disk root (λ w. w) disk-IsFileSystem
