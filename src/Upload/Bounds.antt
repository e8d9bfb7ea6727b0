-- ===== src/Upload/Bounds.antt =====
-- What an upload through the limited and counting readers stores and counts.
use mathlib.Core.List.{append_assoc}
use api_example.Prelude.{
  ℕ, zero, suc, ◌+◌, ◌-◌, ◌≤◌, ◌<◌, ◌≡◌, refl, ap, ◌∙◌, ◌⊎◌, inl, inr, Option, none, some, List, [],
  ◌∷◌, ◌++◌, arith, leb, if◌then◌else◌, length, take, length-take, length-append, Bool-cases,
}
use api_example.Errors.{Error, sentinel, upload_too_large}
use api_example.Upload.Reads.{
  IsEnd, IsMore, read_script-cases, at, window, read_counting_lem, probed, read_counting-probe_end,
  read_counting-probe_over,
}
use api_example.Upload.{Script, read_script, CountingReader, read_counting, limited}
use api_example.Upload.Copy.{
  Copied, copy, is_eof, script_size, content, final_error, IsLively, ending, copy-more, copy-end,
}

-- What the copy returns.
abbrev Outcome : Option (Copied CountingReader) → List ℕ → Option Error → ℕ → Type 0
Outcome result written error count =
    (c : CountingReader) × (result ≡ some (record { written = written; error = error; reader = c }))
    × (c.count ≡ count)

length-nil : (xs : List ℕ) → length xs ≤ 0 → xs ≡ []
length-nil [] h = refl
length-nil (x ∷ xs) h = elim h [ ]

copy_fits :
    (size fuel : ℕ) (s : Script) (r n : ℕ) (out : List ℕ)
    → 0 < size
    → IsLively s
    → script_size s < fuel
    → length (content s) ≤ r
    → Outcome
        (copy (read_counting size) fuel out (at s r n))
        (out ++ content s)
        (ending (final_error s))
        (n + length (content s))
copy_fits size zero s r n out hs l hf hr = elim hf [ ]
copy_fits size (suc fuel) s zero n out hs l hf hr =
    let empty = length-nil (content s) hr in
    elim (read_script-cases 1 s (omega arith) l) [
      | inl e ↦ (
        probed s n,
        copy-end (read_counting size) fuel out (at s 0 n) (probed s n)
              (record { bytes = []; error = some (final_error s) }) (final_error s)
              (read_counting-probe_end size s n e empty) refl
            ∙ rw empty,
        rw empty,
      )
      | inr m ↦ absurd (
          omega (
            arith,
            m.some_read,
            ap (length {0}) m.split,
            length-append {0} (read_script 1 s).0.bytes (content (read_script 1 s).1),
          ))
    ]
copy_fits size (suc fuel) s (suc r) n out hs l hf hr =
    let k = window (suc r) size in
    let (res, s') = read_script k s in
    let later = at s' (suc r - length res.bytes) (n + length res.bytes) in
    elim (read_script-cases k s (ground arith) l) [
      | inl e ↦ (
        later,
        copy-end (read_counting size) fuel out (at s (suc r) n) later res (final_error s)
              (read_counting_lem size s r n) e.ended
            ∙ rw e.all,
        rw e.all,
      )
      | inr m ↦
          let sizes = length-append {0} res.bytes (content s') in
          let (c, eq, counted) =
            copy_fits size fuel s' (suc r - length res.bytes) (n + length res.bytes)
              (out ++ res.bytes) hs m.lively (omega (arith, m.smaller))
              (omega (arith, ap (length {0}) m.split, sizes)) in
          (
            c,
            copy-more (read_counting size) fuel out (at s (suc r) n) later res
                  (read_counting_lem size s r n) m.going
                ∙ (rw (m.split, ← append_assoc, ← m.same_end) eq),
            counted ∙ omega (arith, ap (length {0}) m.split, sizes),
          )
    ]

take-append :
    (n : ℕ) (xs ys : List ℕ) → length xs ≤ n → take n (xs ++ ys) ≡ xs ++ take (n - length xs) ys
take-append n [] ys h = ap (λ k. take k ys) (omega arith)
take-append zero (x ∷ xs) ys h = elim h [ ]
take-append (suc n) (x ∷ xs) ys h =
    ap (λ zs. x ∷ zs) (take-append n xs ys (omega arith) ∙ ap (λ k. xs ++ take k ys) (omega arith))

copy_over :
    (size fuel : ℕ) (s : Script) (r n : ℕ) (out : List ℕ)
    → 0 < size
    → IsLively s
    → script_size s < fuel
    → r < length (content s)
    → Outcome
        (copy (read_counting size) fuel out (at s r n))
        (out ++ take r (content s))
        (some (sentinel upload_too_large))
        (n + r)
unfolding is_eof
copy_over size zero s r n out hs l hf hr = elim hf [ ]
copy_over size (suc fuel) s zero n out hs l hf hr = (
  probed s n,
  copy-end (read_counting size) fuel out (at s 0 n) (probed s n)
      (record { bytes = []; error = some (sentinel upload_too_large) }) (sentinel upload_too_large)
      (read_counting-probe_over size s n (probe_reads (read_script-cases 1 s (omega arith) l)))
      refl,
  refl,
)
  where
    probe_reads : IsEnd 1 s ⊎ IsMore 1 s → 0 < length (read_script 1 s).0.bytes
    probe_reads (inl e) = rw e.all hr
    probe_reads (inr m) = m.some_read
copy_over size (suc fuel) s (suc r) n out hs l hf hr =
    let k = window (suc r) size in
    let (res, s') = read_script k s in
    let later = at s' (suc r - length res.bytes) (n + length res.bytes) in
    elim (read_script-cases k s (ground arith) l) [
      | inl e ↦ absurd (ground (arith, e.fits))
      | inr m ↦
          let sizes = length-append {0} res.bytes (content s') in
          let fits : length res.bytes ≤ suc r = ground (arith, m.fits) in
          let (c, eq, counted) =
            copy_over size fuel s' (suc r - length res.bytes) (n + length res.bytes)
              (out ++ res.bytes) hs m.lively (omega (arith, m.smaller))
              (omega (arith, ap (length {0}) m.split, sizes)) in
          (
            c,
            copy-more (read_counting size) fuel out (at s (suc r) n) later res
                  (read_counting_lem size s r n) m.going
                ∙ (rw m.split
                    (rw (take-append (suc r) res.bytes (content s') fits, ← append_assoc) eq)),
            counted ∙ omega arith,
          )
    ]

pub take_all : (n : ℕ) (xs : List ℕ) → length xs ≤ n → take n xs ≡ xs
take_all zero [] h = refl
take_all zero (x ∷ xs) h = elim h [ ]
take_all (suc n) [] h = refl
take_all (suc n) (x ∷ xs) h = ap (λ zs. x ∷ zs) (take_all n xs (omega arith))

-- An upload that never yields zero bytes without an error, copied through the limited and counting
-- readers with any buffer and enough fuel, ends. It writes the first `max` bytes of the content;
-- the count is the number of bytes written; and it ends as the content does if that has at most
-- `max` bytes, and with errUploadTooLarge otherwise.
pub copy-limited :
    (size fuel max : ℕ) (s : Script)
    → 0 < size
    → IsLively s
    → script_size s < fuel
    → (c : CountingReader) × (copy (read_counting size) fuel [] (limited max s)
        ≡ some (record {
          written = take max (content s);
          error =
              if leb (length (content s)) max
              then (if is_eof (final_error s) then none else some (final_error s))
              else some (sentinel upload_too_large);
          reader = c;
        }))
      × (c.count ≡ length (take max (content s)))
unfolding limited
copy-limited size fuel max s hs l hf = elim (Bool-cases (leb (length (content s)) max)) [
  | inl fits ↦
      let h : length (content s) ≤ max = ground arith in
      let (c, eq, counted) = copy_fits size fuel s max 0 [] hs l hf h in
      (
        c,
        eq ∙ rw (fits, take_all max (content s) h),
        counted ∙ rw (take_all max (content s) h) (omega arith),
      )
  | inr over ↦
      let h : max < length (content s) = ground arith in
      let (c, eq, counted) = copy_over size fuel s max 0 [] hs l hf h in
      (c, eq ∙ rw over, counted ∙ omega (arith, length-take {0} max (content s)))
]
