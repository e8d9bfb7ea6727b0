-- ===== src/Storage/Local/Laws.antt =====
-- What the calls of os document of the files, and the reader with a context.
use api_example.Prelude.{
  ℕ, zero, suc, ◌≤◌, ◌≡◌, ap, ◌≢◌, Bool, true, false, Option, none, some, List, [], ◌∷◌, ◌++◌,
}
use api_example.Text.{Text, has_prefix}
use api_example.Text.Path.{base}
use api_example.Errors.{Error}
use api_example.Exec.{ok, err}
use api_example.Upload.{Script, CountingReader, read_counting}
use api_example.Upload.Copy.{content, Copied, copy, finish, is_eof, script_size}
use api_example.Storage.Local.{FileSystem, ContextReader, read_context}

abbrev pub upload_mark : Text
upload_mark = b'.' ∷ b'u' ∷ b'p' ∷ b'l' ∷ b'o' ∷ b'a' ∷ b'd' ∷ b'-' ∷ []

-- The content of the file at a path, behind the calls: a call changes the files that it names and no
-- other. CreateTemp gives a name with its prefix that no file has; io.Copy reads with some buffer, and
-- has written what it read once it returns with no error; Rename moves a file, or changes nothing;
-- and Open gives the bytes of the file.
pub record IsFileSystem {W : Type 0} (fs : FileSystem W) (files : W → Text → Option (List ℕ))
    : Type 0 where
  pub mkdir_keeps : (path q : Text) (w : W) → files (fs.mkdir_all path w).1 q ≡ files w q
  pub create_keeps :
      (folder q : Text) (bytes : List ℕ) (w : W)
      → files w q ≡ some bytes
      → files (fs.create_temp folder w).1 q ≡ some bytes
  pub create_fresh :
      (folder name : Text) (w w' : W)
      → fs.create_temp folder w ≡ (ok name, w')
      → (files w name ≡ none) × (has_prefix (base name) upload_mark ≡ true)
  pub copied :
      (name : Text) (r r' : ContextReader) (w w' : W)
      → fs.copy_in name r w ≡ ((none, r'), w')
      → (size : ℕ) × (bytes : List ℕ) × (suc 0 ≤ size)
        × (copy (read_context size) (suc (script_size r.reader.reader.reader)) [] r
            ≡ some (record { written = bytes; error = none; reader = r' }))
        × (files w' name ≡ some bytes)
  pub copy_keeps :
      (name q : Text) (r : ContextReader) (w : W)
      → q ≢ name
      → files (fs.copy_in name r w).1 q ≡ files w q
  pub close_keeps : (name q : Text) (w : W) → files (fs.close name w).1 q ≡ files w q
  pub renamed :
      (name target : Text) (w w' : W)
      → fs.rename name target w ≡ (ok tt, w')
      → files w' target ≡ files w name
  pub rename_keeps :
      (name target q : Text) (w : W)
      → q ≢ name
      → q ≢ target
      → files (fs.rename name target w).1 q ≡ files w q
  pub rename_fails :
      (name target q : Text) (e : Error) (w w' : W)
      → fs.rename name target w ≡ (err e, w')
      → files w' q ≡ files w q
  pub opened :
      (path : Text) (body : Script) (w w' : W)
      → fs.open_file path w ≡ (ok body, w')
      → files w path ≡ some (content body)
  pub remove_keeps : (name q : Text) (w : W) → q ≢ name → files (fs.remove name w).1 q ≡ files w q

-- A copy that ends well through the reader with a context is one of the reader itself.
abbrev IsEnding : ℕ → ℕ → List ℕ → List ℕ → ContextReader → ContextReader → Type 0
IsEnding size fuel out bytes r r' =
    copy (read_context size) fuel out r
      ≡ some (record { written = bytes; error = none; reader = r' })
    → copy (read_counting size) fuel out r.reader
      ≡ some (record { written = bytes; error = none; reader = r'.reader })

-- One pass, from what the Read has returned on.
IsEnding-step :
    (size fuel : ℕ) (out bytes got : List ℕ) (error : Option Error) (c : CountingReader)
    (rest : List Bool) (r' : ContextReader)
    → IsEnding size fuel (out ++ got) bytes (record { reader = c; interrupts = rest }) r'
    → elim error as (λ x. Option (Copied ContextReader)) [
      | none ↦ copy (read_context size) fuel (out ++ got) (record { reader = c; interrupts = rest })
      | some e ↦ some (finish (out ++ got) e (record { reader = c; interrupts = rest }))
    ]
      ≡ some (record { written = bytes; error = none; reader = r' })
    → elim error as (λ x. Option (Copied CountingReader)) [
      | none ↦ copy (read_counting size) fuel (out ++ got) c
      | some e ↦ some (finish (out ++ got) e c)
    ]
      ≡ some (record { written = bytes; error = none; reader = r'.reader })
IsEnding-step size fuel out bytes got none c rest r' ih h = ih h
IsEnding-step size fuel out bytes got (some e) c rest r' ih h =
    ap
      (λ (o : Option (Copied ContextReader)). elim o as (λ x. Option (Copied CountingReader)) [
        | none ↦ none
        | some k ↦ some (record { written = k.written; error = k.error; reader = k.reader.reader })
      ])
      h

interrupted :
    (size fuel : ℕ) (out bytes : List ℕ) (c : CountingReader) (rest : List Bool)
    (r' : ContextReader)
    → IsEnding size (suc fuel) out bytes (record { reader = c; interrupts = true ∷ rest }) r'
unfolding copy read_context is_eof
interrupted size fuel out bytes c rest r' h = absurd cc

pub copy-read_context :
    (size fuel : ℕ) (out bytes : List ℕ) (c : CountingReader) (interrupts : List Bool)
    (r' : ContextReader)
    → IsEnding size fuel out bytes (record { reader = c; interrupts = interrupts }) r'
unfolding copy read_context
copy-read_context size zero out bytes c interrupts r' h = absurd cc
copy-read_context size (suc fuel) out bytes c [] r' h =
    let (got, c') = read_counting size c in
    IsEnding-step size fuel out bytes got.bytes got.error c' [] r'
      (copy-read_context size fuel (out ++ got.bytes) bytes c' [] r') h
copy-read_context size (suc fuel) out bytes c (true ∷ rest) r' h =
    interrupted size fuel out bytes c rest r' h
copy-read_context size (suc fuel) out bytes c (false ∷ rest) r' h =
    let (got, c') = read_counting size c in
    IsEnding-step size fuel out bytes got.bytes got.error c' rest r'
      (copy-read_context size fuel (out ++ got.bytes) bytes c' rest r') h
