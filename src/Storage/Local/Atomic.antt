-- ===== src/Storage/Local/Atomic.antt =====
-- What a Put leaves of the objects that were there.
use api_example.Prelude.{
  ℕ, ◌≡◌, refl, sym, ap, ◌∙◌, ◌≢◌, ◌⊎◌, inl, inr, Bool, true, false, Option, none, some, List,
  if◌then◌else◌,
}
use mathlib.Core.Path.{subst}
use api_example.Text.{Text, text}
use api_example.Text.Path.{path_join, dir}
use api_example.Errors.{Error, sentinel, canceled}
use api_example.Exec.{Result, ok, err, Done, ◌>>◌}
use api_example.Exec.Rules.{Preserves, bind-Preserves}
use api_example.Upload.{CountingReader}
use api_example.Storage.{validate_key}
use api_example.Storage.Local.{
  FileSystem, ContextReader, put, put_target, put_in, fill, copied_in, publish, prepare, path_of,
  path_for_write, wrapping, labelled, verify_inside, published, removing,
}
use api_example.Storage.Local.Laws.{IsFileSystem}
use api_example.Storage.Local.Copying.{prepare-ok, verify_inside-stays}

module _ {W : Type 0} (fs : FileSystem W) (root : Text) (files : W → Text → Option (List ℕ))
    (law : IsFileSystem fs files) (q : Text) (bytes : List ℕ) where
  abbrev Held : W → Type 0
  Held w = files w q ≡ some bytes

  prepare-Held : (target : Text) → Preserves Held (prepare fs root target)
  prepare-Held target =
      bind-Preserves Held
        (wrapping fs (text "create object directory: ") (fs.mkdir_all (dir target)))
        (λ x.
          verify_inside fs root (dir target)
          >> wrapping fs (text "create temporary object: ") (fs.create_temp (dir target)))
        (λ w h. law.mkdir_keeps (dir target) q w ∙ h)
        λ x.
          bind-Preserves Held (verify_inside fs root (dir target))
            (λ y. wrapping fs (text "create temporary object: ") (fs.create_temp (dir target)))
            (λ w h. ap (λ v. files v q) (verify_inside-stays fs root files law (dir target) w) ∙ h)
            λ y w h. law.create_keeps (dir target) q bytes w h

  -- The temporary file is none that was there.
  fresh :
      (target name : Text) (w w' : W) → Held w → prepare fs root target w ≡ (ok name, w') → q ≢ name
  fresh target name w w' h prepared same =
      let (v, made, same_files) = prepare-ok fs root files law target name w w' prepared in
      let (free, _) = law.create_fresh (dir target) name v w' made in
      let held : files v name ≡ some bytes = ap (files v) (sym same) ∙ same_files q ∙ h in
      none_some (sym free ∙ held)
    where
      none_some : ◌≡◌ {A = Option (List ℕ)} none (some bytes) → ⊥
      none_some e = cc

  -- The answer of a Put, after which what was held is held, unless the answer is success and the
  -- object was the target.
  abbrev IsKept : Text → (Option Error × CountingReader) × W → Type 0
  IsKept target p = (p.0.0 ≢ none) ⊎ (q ≢ target) → Held p.1

  publish-IsKept :
      (target name : Text) (r : ContextReader) (w : W)
      → q ≢ name
      → Held w
      → IsKept target (published fs root r (publish fs root target name w))
  publish-IsKept target name r w apart h = by_close (fs.close name w) (law.close_keeps name q w ∙ h)
    where
      by_rename :
          (v : W) (p : Result Done × W)
          → Held v
          → fs.rename name target v ≡ p
          → IsKept target (published fs root r (labelled fs (text "publish object: ") p.0, p.1))
      by_rename v (err e, v') held renamed c = law.rename_fails name target q e v v' renamed ∙ held
      by_rename v (ok t, v') held renamed (inl e) = absurd (e refl)
      by_rename v (ok t, v') held renamed (inr other) =
          sym (ap (λ (p : Result Done × W). files p.1 q) renamed)
          ∙ law.rename_keeps name target q v apart other
          ∙ held

      by_close :
          (p : Result Done × W)
          → Held p.1
          → IsKept target (
              published fs root r
                (elim (labelled fs (text "close object: ") p.0) as (λ x. Result Done × W) [
                  | ok t ↦ wrapping fs (text "publish object: ") (fs.rename name target) p.1
                  | err e ↦ (err e, p.1)
                ]))
      by_close (ok t, v) held = by_rename v (fs.rename name target v) held refl
      by_close (err e, v) held = λ c. held

  fill-IsKept :
      (target name : Text) (c : CountingReader) (w : W)
      → q ≢ name
      → Held w
      → IsKept target (fill fs root target name c w)
  fill-IsKept target name c w apart h =
      by_copy (fs.copy_in name source w) (law.copy_keeps name q source w apart ∙ h)
    where
      source : ContextReader
      source = record { reader = c; interrupts = fs.interrupts w }

      by_copy :
          (p : (Option Error × ContextReader) × W)
          → Held p.1
          → IsKept target (removing fs root name (copied_in fs root target name p))
      by_copy ((some e, r), v) held k =
          law.remove_keeps name q (fs.close name v).1 apart ∙ law.close_keeps name q v ∙ held
      by_copy ((none, r), v) held k =
          law.remove_keeps name q (publish fs root target name v).1 apart
          ∙ publish-IsKept target name r v apart held k

  put_target-IsKept :
      (target : Text) (c : CountingReader) (w : W)
      → Held w
      → IsKept target (put_target fs root (ok target) c w)
  put_target-IsKept target c w h = by_name (prepare fs root target w) refl (prepare-Held target w h)
    where
      by_name :
          (p : Result Text × W)
          → prepare fs root target w ≡ p
          → Held p.1
          → IsKept target (put_in fs root target c p)
      by_name (err e, v) prepared held = λ k. held
      by_name (ok name, v) prepared held =
          fill-IsKept target name c v (fresh target name w v h prepared) held

  put-IsKept :
      (key : Text) (c : CountingReader) (w : W) (invalid : Option Error) (done : Bool)
      → Held w
      → IsKept (path_join root key) (
          if done
          then ((some (sentinel canceled), c), w)
          else put_target fs root (path_of fs root invalid key) c w)
  put-IsKept key c w invalid true h k = h
  put-IsKept key c w (some e) false h k = h
  put-IsKept key c w none false h k = put_target-IsKept (path_join root key) c w h k

  -- A Put never harms an object that is there: if it fails, every file has the bytes that it had, the
  -- one of its key among them; if it succeeds, every file but that of its key has. This holds at every
  -- point of failure, over files that behave as os documents.
  pub put-keeps :
      (key media_type : Text) (result : Option Error) (c c' : CountingReader) (w w' : W)
      → files w q ≡ some bytes
      → put fs root key media_type c w ≡ ((result, c'), w')
      → (result ≢ none) ⊎ (q ≢ path_join root key)
      → files w' q ≡ some bytes
  unfolding put path_for_write
  put-keeps key media_type result c c' w w' h ran k =
      subst (IsKept (path_join root key)) ran
        (put-IsKept key c w (validate_key key) (fs.is_done w) h) k
