-- ===== src/Storage/Local/Copying.antt =====
-- The storage in a directory keeps the contract that the upload asks of its storage.
use api_example.Prelude.{
  ℕ, suc, ◌≤◌, ◌≡◌, refl, sym, ap, ◌∙◌, ◌≢◌, Bool, true, false, Option, none, some, List, [], arith,
  if◌then◌else◌,
}
use api_example.Text.{Text, text, has_prefix}
use api_example.Text.Path.{base, path_join, dir}
use api_example.Errors.{Error, sentinel, canceled}
use api_example.Exec.{Result, ok, err, Exec, Done, ◌>>◌}
use api_example.Exec.Rules.{bind-inverts}
use api_example.Upload.{CountingReader, read_counting}
use api_example.Upload.Copy.{copy, script_size}
use api_example.Documents.Create.{IsCopying}
use api_example.Storage.{validate_key}
use api_example.Storage.Local.{
  FileSystem, ContextReader, put, put_target, put_in, fill, copied_in, publish, prepare, path_of,
  wrapping, labelled, inside, verify_inside, path_for_write, published, removing, local_storage,
}
use api_example.Storage.Local.Laws.{IsFileSystem, copy-read_context, upload_mark}

module _ {W : Type 0} (fs : FileSystem W) (root : Text) (files : W → Text → Option (List ℕ))
    (law : IsFileSystem fs files) where
  -- The objects of the storage, and the keys whose last segment is not like a temporary name.
  abbrev pub object : W → Text → Option (List ℕ)
  object w key = files w (path_join root key)

  abbrev pub IsKey : Text → Type 0
  IsKey key = has_prefix (base (path_join root key)) upload_mark ≡ false

  wrapping-ok :
      {A : Type 0} (label : Text) (m : Exec W A) (a : A) (w w' : W)
      → wrapping fs label m w ≡ (ok a, w')
      → m w ≡ (ok a, w')
  wrapping-ok {A} label m a w w' h = go (m w) h
    where
      go :
          (p : Result A × W)
          → ◌≡◌ {A = Result A × W} (labelled fs label p.0, p.1) (ok a, w')
          → p ≡ (ok a, w')
      go (ok b, v) e = e
      go (err x, v) e = absurd cc

  -- A publication that succeeds leaves at the target what the temporary file held.
  publish-ok :
      (target name : Text) (w w' : W)
      → publish fs root target name w ≡ (ok tt, w')
      → files w' target ≡ files w name
  publish-ok target name w w' h =
      let (t, w1, a1, k1) =
        bind-inverts (wrapping fs (text "close object: ") (fs.close name))
          (λ x. wrapping fs (text "publish object: ") (fs.rename name target)) w w' tt h in
      law.renamed name target w1 w'
        (wrapping-ok (text "publish object: ") (fs.rename name target) tt w1 w' k1)
      ∙ sym (ap (λ (p : Result Done × W). files p.1 name) a1)
      ∙ law.close_keeps name name w

  -- What a Put that has succeeded leaves: the bytes that a copy has read.
  abbrev IsStored : Text → CountingReader → CountingReader → W → Type 0
  IsStored target c c' w' =
      (size : ℕ) × (bytes : List ℕ) × (suc 0 ≤ size)
      × (copy (read_counting size) (suc (script_size c.reader.reader)) [] c
          ≡ some (record { written = bytes; error = none; reader = c' }))
      × (files w' target ≡ some bytes)

  fill-IsStored :
      (target name : Text) (c c' : CountingReader) (w w' : W)
      → target ≢ name
      → fill fs root target name c w ≡ ((none, c'), w')
      → IsStored target c c' w'
  fill-IsStored target name c c' w w' apart h = by_copy (fs.copy_in name source w) refl h
    where
      source : ContextReader
      source = record { reader = c; interrupts = fs.interrupts w }

      by_done :
          (r : ContextReader) (v : W) (p : Result Done × W)
          → fs.copy_in name source w ≡ ((none, r), v)
          → publish fs root target name v ≡ p
          → removing fs root name (published fs root r p) ≡ ((none, c'), w')
          → IsStored target c c' w'
      by_done r v (err e, v') ran done e2 = absurd cc
      by_done r v (ok t, v') ran done e2 =
          let (size, bytes, positive, copied, held) = law.copied name source r w v ran in
          let same : r.reader ≡ c' = ap (λ (p : (Option Error × CountingReader) × W). p.0.1) e2 in
          (
            size,
            bytes,
            positive,
            copy-read_context size (suc (script_size c.reader.reader)) [] bytes c (fs.interrupts w)
                  r copied
                ∙ ap (λ x. some (record { written = bytes; error = none; reader = x })) same,
            sym (ap (λ (p : (Option Error × CountingReader) × W). files p.1 target) e2)
                ∙ law.remove_keeps name target v' apart
                ∙ publish-ok target name v v' done
                ∙ held,
          )

      by_copy :
          (p : (Option Error × ContextReader) × W)
          → fs.copy_in name source w ≡ p
          → removing fs root name (copied_in fs root target name p) ≡ ((none, c'), w')
          → IsStored target c c' w'
      by_copy ((some e, r), v) ran e2 = absurd cc
      by_copy ((none, r), v) ran e2 = by_done r v (publish fs root target name v) ran refl e2

  pub verify_inside-stays : (candidate : Text) (w : W) → (verify_inside fs root candidate w).1 ≡ w
  unfolding verify_inside
  verify_inside-stays candidate w = by_path (fs.eval_symlinks candidate w)
    where
      by_path :
          (r : Result Text)
          → (elim (labelled fs (text "evaluate object directory: ") r) as (λ x. Result Done × W) [
            | ok path ↦ inside fs root path w
            | err e ↦ (err e, w)
          ]).1
            ≡ w
      by_path (ok path) = ground arith
      by_path (err e) = refl

  -- The temporary file is made in a state whose files are those before.
  pub prepare-ok :
      (target name : Text) (w w' : W)
      → prepare fs root target w ≡ (ok name, w')
      → (v : W) × (fs.create_temp (dir target) v ≡ (ok name, w'))
        × ((q : Text) → files v q ≡ files w q)
  prepare-ok target name w w' h =
      let folder = dir target in
      let label = text "create temporary object: " in
      let (t, w1, a1, k1) =
        bind-inverts (wrapping fs (text "create object directory: ") (fs.mkdir_all (dir target)))
          (λ x.
            verify_inside fs root (dir target)
            >> wrapping fs (text "create temporary object: ") (fs.create_temp (dir target)))
          w w' name h in
      let (t2, w2, a2, k2) =
        bind-inverts (verify_inside fs root (dir target))
          (λ x. wrapping fs (text "create temporary object: ") (fs.create_temp (dir target))) w1 w'
          name k1 in
      let same : w2 ≡ w1 =
        sym (ap (λ (p : Result Done × W). p.1) a2) ∙ verify_inside-stays (dir target) w1 in
      (
        w2,
        wrapping-ok (text "create temporary object: ") (fs.create_temp (dir target)) name w2 w' k2,
        λ q.
            ap (λ v. files v q) same
            ∙ sym (ap (λ (p : Result Done × W). files p.1 q) a1)
            ∙ law.mkdir_keeps (dir target) q w,
      )

  put_target-IsStored :
      (key : Text) (invalid : Option Error) (c c' : CountingReader) (w w' : W)
      → IsKey key
      → put_target fs root (path_of fs root invalid key) c w ≡ ((none, c'), w')
      → IsStored (path_join root key) c c' w'
  put_target-IsStored key (some e) c c' w w' named h = absurd cc
  put_target-IsStored key none c c' w w' named h = by_name (prepare fs root target w) refl h
    where
      target : Text
      target = path_join root key

      true_false : ◌≡◌ {A = Bool} true false → ⊥
      true_false e = cc

      apart : (name : Text) (v : W) → prepare fs root target w ≡ (ok name, v) → target ≢ name
      apart name v prepared same =
          let (u, made, _) = prepare-ok target name w v prepared in
          let (_, marked) = law.create_fresh (dir target) name u v made in
          true_false (sym marked ∙ ap (λ t. has_prefix (base t) upload_mark) (sym same) ∙ named)

      by_name :
          (p : Result Text × W)
          → prepare fs root target w ≡ p
          → put_in fs root target c p ≡ ((none, c'), w')
          → IsStored (path_join root key) c c' w'
      by_name (err e, v) prepared h2 = absurd cc
      by_name (ok name, v) prepared h2 =
          fill-IsStored (path_join root key) name c c' v w' (apart name v prepared) h2

  not_done :
      (key : Text) (c c' : CountingReader) (w w' : W) (done : Bool)
      → (if done
          then ((some (sentinel canceled), c), w)
          else put_target fs root (path_of fs root (validate_key key) key) c w)
        ≡ ((none, c'), w')
      → put_target fs root (path_of fs root (validate_key key) key) c w ≡ ((none, c'), w')
  not_done key c c' w w' true h = absurd cc
  not_done key c c' w w' false h = h

  -- The storage in a directory keeps what it copies off its reader, at every key whose last segment
  -- does not begin with ".upload-": `Local` fulfils the contract on which the theorem on uploads rests,
  -- over files that behave as os documents.
  pub local_storage-IsCopying : IsCopying (local_storage fs root) IsKey object
  unfolding put path_for_write
  local_storage-IsCopying = record {
    copied = λ key media_type c c' w w' named h.
        put_target-IsStored key (validate_key key) c c' w w' named
          (not_done key c c' w w' (fs.is_done w) h);
  }
