-- ===== src/Worker/Read.antt =====
-- io.Copy of the body of an object ends, and yields the whole content.
use mathlib.Core.List.{append_assoc}
use api_example.Prelude.{
  ℕ, zero, suc, ◌<◌, ◌≡◌, refl, ◌∙◌, List, [], ◌++◌, Option, none, some, arith, leb, length, take,
  drop, take-append-drop, length-drop, Bool-cases, inl, inr,
}
use api_example.Errors.{Error}
use api_example.Upload.{Script, last, chunk, read_script}
use api_example.Upload.Copy.{
  Copied, copy, script_size, content, final_error, ending, copy-more, copy-end,
}
use api_example.Worker.{read_body, copy_buffer}

abbrev Whole : Option (Copied Script) → List ℕ → Option Error → Type 0
Whole result written error =
    (r : Script) × (result ≡ some (record { written = written; error = error; reader = r }))

copy_script :
    (size fuel : ℕ) (s : Script) (out : List ℕ)
    → 0 < size
    → script_size s < fuel
    → Whole (copy (read_script size) fuel out s) (out ++ content s) (ending (final_error s))
unfolding content final_error script_size
copy_script size zero s out h k = elim k [ ]
copy_script size (suc fuel) (last bs e) out h k = elim (Bool-cases (leb (length bs) size)) [
  | inl fit ↦ (
    last [] e,
    copy-end (read_script size) fuel out (last bs e) (last [] e)
        (record { bytes = bs; error = some e }) e (unfold read_script in rw fit) refl,
  )
  | inr big ↦
      let (r, eq) =
        copy_script size fuel (last (drop size bs) e) (out ++ take size bs) h
          (ground (arith, length-drop size bs)) in
      (
        r,
        copy-more (read_script size) fuel out (last bs e) (last (drop size bs) e)
              (record { bytes = take size bs; error = none }) (unfold read_script in rw big) refl
            ∙ eq
            ∙ rw append_assoc (rw take-append-drop),
      )
]
copy_script size (suc fuel) (chunk bs rest) out h k = elim (Bool-cases (leb (length bs) size)) [
  | inl fit ↦
      let (r, eq) = copy_script size fuel rest (out ++ bs) h (omega arith) in
      (
        r,
        copy-more (read_script size) fuel out (chunk bs rest) rest
              (record { bytes = bs; error = none }) (unfold read_script in rw fit) refl
            ∙ eq
            ∙ rw append_assoc,
      )
  | inr big ↦
      let (r, eq) =
        copy_script size fuel (chunk (drop size bs) rest) (out ++ take size bs) h
          (ground (arith, length-drop size bs)) in
      (
        r,
        copy-more (read_script size) fuel out (chunk bs rest) (chunk (drop size bs) rest)
              (record { bytes = take size bs; error = none }) (unfold read_script in rw big) refl
            ∙ eq
            ∙ rw (append_assoc, ← append_assoc (take size bs) (drop size bs) (content rest))
                (rw take-append-drop),
      )
]

-- The copy of a body always ends, with the whole content and the error that ends the body, io.EOF
-- being none.
pub read_body_lem :
    (body : Script)
    → (r : Script) × (read_body body
        ≡ some (record { written = content body; error = ending (final_error body); reader = r }))
unfolding read_body
read_body_lem body =
    copy_script copy_buffer (suc (suc (script_size body))) body [] (omega arith) (omega arith)
