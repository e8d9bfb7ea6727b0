-- ===== src/Upload/Copy.antt =====
-- The loop of io.Copy: it reads into a buffer until the reader returns an error, and io.EOF is
-- none. The fuel bounds the number of reads.
use api_example.Prelude.{
  ℕ, zero, suc, ◌+◌, Bool, false, Option, none, some, List, [], ◌∷◌, ◌++◌, if◌then◌else◌, length,
  ◌≡◌, arith,
}
use api_example.Errors.{Error, sentinel, eof, same_sentinel}
use api_example.Upload.{Script, last, chunk, ReadResult}

-- The operator == at io.EOF, as io.Copy tests it: only io.EOF itself ends well.
unfoldable pub is_eof : Error → Bool
is_eof (sentinel s) = same_sentinel s eof
is_eof _ = false

-- What a copy wrote, how it ended, and the reader it leaves.
pub record Copied (R : Type 0) : Type 0 where
  pub written : List ℕ
  pub error : Option Error
  pub reader : R

abbrev pub finish : {R : Type 0} → List ℕ → Error → R → Copied R
finish out e r = record { written = out; error = if is_eof e then none else some e; reader = r }

-- io.Copy over any reader, given by its Read.
unfoldable pub copy : {R : Type 0} → (R → ReadResult × R) → ℕ → List ℕ → R → Option (Copied R)
copy read zero out r = none
copy read (suc fuel) out r =
    let (res, r') = read r in
    elim res.error [
      | none ↦ copy read fuel (out ++ res.bytes) r'
      | some e ↦ some (finish (out ++ res.bytes) e r')
    ]

-- The number of reads after which a reader with this script has returned its error.
unfoldable pub script_size : Script → ℕ
script_size (last bs e) = suc (length bs)
script_size (chunk bs rest) = suc (length bs) + script_size rest

-- Every byte that the script yields.
unfoldable pub content : Script → List ℕ
content (last bs e) = bs
content (chunk bs rest) = bs ++ content rest

-- The error at the end of the script.
unfoldable pub final_error : Script → Error
final_error (last bs e) = e
final_error (chunk bs rest) = final_error rest

-- No Read yields zero bytes with no error, which io.Reader discourages.
abbrev pub IsLively : Script → Type 0
IsLively (last bs e) = Unit
IsLively (chunk [] rest) = ⊥
IsLively (chunk (b ∷ bs) rest) = IsLively rest

-- How a copy ends at an error of the reader.
abbrev pub ending : Error → Option Error
ending e = if is_eof e then none else some e

-- One pass of the loop, when the reader goes on and when it ends.
pub copy-more :
    {R : Type 0} (read : R → ReadResult × R) (fuel : ℕ) (out : List ℕ) (r r' : R) (res : ReadResult)
    → read r ≡ (res, r')
    → res.error ≡ none
    → copy read (suc fuel) out r ≡ copy read fuel (out ++ res.bytes) r'
unfolding copy
copy-more read fuel out r r' res p e = ground (arith, p, e)

pub copy-end :
    {R : Type 0} (read : R → ReadResult × R) (fuel : ℕ) (out : List ℕ) (r r' : R) (res : ReadResult)
    (e : Error)
    → read r ≡ (res, r')
    → res.error ≡ some e
    → copy read (suc fuel) out r
      ≡ some (record { written = out ++ res.bytes; error = ending e; reader = r' })
unfolding copy
copy-end read fuel out r r' res e p q = ground (arith, p, q)
