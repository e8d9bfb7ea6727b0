-- ===== src/Worker/Outcome.antt =====
-- What becomes of a document that a worker has claimed.
use api_example.Prelude.{
  ℕ, ◌≤◌, ◌≡◌, refl, ap, Bool, true, false, not, List, [], none, some, arith, ltb, if◌then◌else◌,
  ◌++◌, length, take, length-take, sym, Bool-cases, inl, inr,
}
use mathlib.Core.Path.{fun_ext}
use api_example.Prelude.Int.{ℤ, pos, int_eq, int_eq_iff}
use api_example.Text.{Text, text}
use api_example.Errors.{Error, wrapped}
use api_example.Exec.{Result, ok, err, Exec, Done}
use api_example.Domain.{Document}
use api_example.Upload.Copy.{content, final_error, is_eof}
use api_example.Ports.{StoredObject}
use api_example.Text.Hex.{hex}
use api_example.Worker.{
  DocumentWorker, process_claimed, fail_document, hashed, size_mismatch, failed_with, copied,
  opened, read_body, bounded_message,
}
use api_example.Upload.Bounds.{take_all}
use api_example.Worker.Read.{read_body_lem}

-- What should become of the document: it is ready with a checksum, or it has failed for a cause.
pub data Verdict : Type 0 where
  becomes_ready : Text → Verdict
  becomes_failed : Error → Verdict

-- The diagnostic message that is recorded is the first 512 bytes of the error's text.
pub bounded_message_lem :
    (message : Text)
    → (bounded_message message ≡ take 512 message) × (length (bounded_message message) ≤ 512)
unfolding bounded_message
bounded_message_lem message = elim (Bool-cases (ltb 512 (length message))) [
  | inl long ↦ rw long (refl, omega (arith, length-take {0} 512 message))
  | inr short ↦
      let fits : length message ≤ 512 = ground arith in
      rw short (sym (take_all 512 message fits), fits)
]

module _ {W : Type 0} (w : DocumentWorker W) where
  -- Ready exactly if the object opens, its body ends well, and it has the recorded size; the
  -- checksum is that of the whole content.
  abbrev pub verdict : Document → Result StoredObject → Verdict
  verdict document (err e) = becomes_failed (wrapped (text "open object: ") e [])
  verdict document (ok object) =
      if is_eof (final_error object.body)
      then if int_eq (pos (length (content object.body))) document.size_bytes
        then becomes_ready (hex (w.sha256 (content object.body)))
        else becomes_failed
            (size_mismatch w document.size_bytes (pos (length (content object.body))))
      else becomes_failed (wrapped (text "read object: ") (final_error object.body) [])

  -- What a call that marks a document as failed returns: the cause, or both errors.
  abbrev pub marked_as : Error → Result Done × W → Result Done × W
  marked_as cause (ok marked, state) = (err cause, state)
  marked_as cause (err e, state) =
      (err (wrapped (w.error_message cause ++ text "; mark failed: ") e []), state)

  -- The call that records a verdict, and what it returns.
  abbrev pub record_verdict : Document → Verdict → Exec W Done
  record_verdict document (becomes_ready checksum) state =
      w.repository.mark_ready document.id checksum document.size_bytes state
  record_verdict document (becomes_failed cause) state =
      marked_as cause
        (w.repository.mark_failed document.id (take 512 (w.error_message cause)) state)

  fail_document_lem :
      (id : ℤ) (cause : Error)
      → fail_document w id cause ≡ (λ state.
        marked_as cause (w.repository.mark_failed id (take 512 (w.error_message cause)) state))
  unfolding fail_document
  fail_document_lem id cause = rw (bounded_message_lem (w.error_message cause)).0 (
      fun_ext
        (λ state. by_mark (w.repository.mark_failed id (take 512 (w.error_message cause)) state)))
    where
      by_mark : (p : Result Done × W) → failed_with w cause p.0 p.1 ≡ marked_as cause p
      by_mark (ok marked, state) = refl
      by_mark (err e, state) = refl

  copied_lem :
      (document : Document) (object : StoredObject)
      → copied w document (read_body object.body)
        ≡ record_verdict document (verdict document (ok object))
  copied_lem document object =
      let (r, eq) = read_body_lem object.body in rw eq (by_end (is_eof (final_error object.body)))
    where
      bytes : List ℕ
      bytes = content object.body

      by_size :
          (b : Bool)
          → int_eq (pos (length bytes)) document.size_bytes ≡ b
          → (if not b
              then fail_document w document.id
                  (size_mismatch w document.size_bytes (pos (length bytes)))
              else w.repository.mark_ready document.id (hex (w.sha256 bytes)) (pos (length bytes)))
            ≡ record_verdict document (
                if b
                then becomes_ready (hex (w.sha256 bytes))
                else becomes_failed (size_mismatch w document.size_bytes (pos (length bytes))))
      by_size true e =
          ap (w.repository.mark_ready document.id (hex (w.sha256 bytes)))
            ((int_eq_iff (pos (length bytes)) document.size_bytes).0 e)
      by_size false e =
          fail_document_lem document.id (size_mismatch w document.size_bytes (pos (length bytes)))

      by_end :
          (b : Bool)
          → hashed w document (if b then none else some (final_error object.body)) bytes
            ≡ record_verdict document (
                if b
                then if int_eq (pos (length bytes)) document.size_bytes
                  then becomes_ready (hex (w.sha256 bytes))
                  else becomes_failed (size_mismatch w document.size_bytes (pos (length bytes)))
                else becomes_failed (wrapped (text "read object: ") (final_error object.body) []))
      by_end true = by_size (int_eq (pos (length bytes)) document.size_bytes) refl
      by_end false =
          fail_document_lem document.id
            (wrapped (text "read object: ") (final_error object.body) [])

  -- A worker that has claimed a document opens its object, and records the verdict on it, in the
  -- state that the opening left: it calls MarkReady with the checksum of the whole content and with
  -- the recorded size if the verdict is ready. Otherwise it calls MarkFailed with the first 512 bytes of
  -- the text of the cause, and returns the cause, or an error with both texts if that call fails.
  pub process_claimed_lem :
      (document : Document) (state : W)
      → process_claimed w document state ≡ (
          let (result, state') = w.storage.open_object document.storage_key state in
          record_verdict document (verdict document result) state')
  unfolding process_claimed
  process_claimed_lem document state =
      let (result, state') = w.storage.open_object document.storage_key state in
      by_result result state'
    where
      by_result :
          (result : Result StoredObject) (state' : W)
          → opened w document result state'
            ≡ record_verdict document (verdict document result) state'
      by_result (err e) state' =
          ap (λ (m : Exec W Done). m state')
            (fail_document_lem document.id (wrapped (text "open object: ") e []))
      by_result (ok object) state' = ap (λ (m : Exec W Done). m state') (copied_lem document object)
