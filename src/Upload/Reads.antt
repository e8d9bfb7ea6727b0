-- ===== src/Upload/Reads.antt =====
-- What one Read of a script, and one Read through the limited and counting readers, does.
use mathlib.Core.List.{append_assoc}
use api_example.Prelude.{
  ℕ, suc, ◌+◌, ◌-◌, ◌≤◌, ◌<◌, ◌≡◌, ◌⊎◌, inl, inr, true, false, none, some, List, [], ◌∷◌, ◌++◌,
  arith, ltb, leb, if◌then◌else◌, length, drop, take-append-drop, length-take, length-drop,
  Bool-cases,
}
use api_example.Errors.{sentinel, upload_too_large}
use api_example.Upload.{Script, last, chunk, read_script, CountingReader, read_counting}
use api_example.Upload.Copy.{script_size, content, final_error, IsLively}

-- One Read of a script: it returned the last bytes and the final error, or it took bytes off the
-- front and went on.
pub record IsEnd (size : ℕ) (s : Script) : Type 0 where
  pub ended : (read_script size s).0.error ≡ some (final_error s)
  pub all : (read_script size s).0.bytes ≡ content s
  pub fits : length (content s) ≤ size

pub record IsMore (size : ℕ) (s : Script) : Type 0 where
  pub going : (read_script size s).0.error ≡ none
  pub split : content s ≡ (read_script size s).0.bytes ++ content (read_script size s).1
  pub fits : length (read_script size s).0.bytes ≤ size
  pub some_read : 0 < length (read_script size s).0.bytes
  pub same_end : final_error (read_script size s).1 ≡ final_error s
  pub smaller : script_size (read_script size s).1 < script_size s
  pub lively : IsLively (read_script size s).1

IsLively-chunk :
    (bs : List ℕ) (rest : Script) → 0 < length bs → IsLively rest → IsLively (chunk bs rest)
IsLively-chunk [] rest h l = elim h [ ]
IsLively-chunk (b ∷ bs) rest h l = l

IsLively-rest :
    (bs : List ℕ) (rest : Script) → IsLively (chunk bs rest) → (0 < length bs) × IsLively rest
IsLively-rest [] rest l = absurd l
IsLively-rest (b ∷ bs) rest l = (omega arith, l)

pub read_script-cases :
    (size : ℕ) (s : Script) → 0 < size → IsLively s → IsEnd size s ⊎ IsMore size s
unfolding read_script content final_error script_size
read_script-cases size (last bs e) h l = elim (Bool-cases (leb (length bs) size)) [
  | inl fit ↦ inl (record { ended = rw fit; all = rw fit; fits = ground arith })
  | inr big ↦ inr (record {
    going = rw big;
    split = rw big (rw take-append-drop);
    fits = rw big (omega (arith, length-take {0} size bs));
    some_read = rw big (ground (arith, length-take size bs));
    same_end = rw big;
    smaller = rw big (ground (arith, length-drop size bs));
    lively = rw big tt;
  })
]
read_script-cases size (chunk bs rest) h l =
    let (filled, l') = IsLively-rest bs rest l in
    elim (Bool-cases (leb (length bs) size)) [
      | inl fit ↦ inr (record {
        going = rw fit;
        split = rw fit;
        fits = rw fit (ground arith);
        some_read = rw fit filled;
        same_end = rw fit;
        smaller = rw fit (omega arith);
        lively = rw fit l';
      })
      | inr big ↦ inr (record {
        going = rw big;
        split = rw big (rw (← append_assoc) (rw take-append-drop));
        fits = rw big (omega (arith, length-take {0} size bs));
        some_read = rw big (ground (arith, length-take size bs));
        same_end = rw big;
        smaller = rw big (ground (arith, length-drop size bs));
        lively =
            rw big (IsLively-chunk (drop size bs) rest (ground (arith, length-drop size bs)) l');
      })
    ]

abbrev pub at : Script → ℕ → ℕ → CountingReader
at s remaining n = record {
  reader = record { reader = s; remaining = remaining; checked_overflow = false };
  count = n;
}

abbrev pub window : ℕ → ℕ → ℕ
window remaining size = if ltb remaining size then remaining else size

-- One Read through both readers while bytes remain.
pub read_counting_lem :
    (size : ℕ) (s : Script) (r n : ℕ)
    → let (res, s') = read_script (window (suc r) size) s in
      read_counting size (at s (suc r) n)
      ≡ (res, at s' (suc r - length res.bytes) (n + length res.bytes))
unfolding read_counting
read_counting_lem size s r n = ground arith

-- The probe, when nothing remains: it finds the end of the script, or one byte too many.
abbrev pub probed : Script → ℕ → CountingReader
probed s n = record {
  reader = record { reader = (read_script 1 s).1; remaining = 0; checked_overflow = true };
  count = n + 0;
}

pub read_counting-probe_end :
    (size : ℕ) (s : Script) (n : ℕ)
    → IsEnd 1 s
    → content s ≡ []
    → read_counting size (at s 0 n)
      ≡ (record { bytes = []; error = some (final_error s) }, probed s n)
unfolding read_counting
read_counting-probe_end size s n e h = rw (e.all, h, e.ended)

pub read_counting-probe_over :
    (size : ℕ) (s : Script) (n : ℕ)
    → 0 < length (read_script 1 s).0.bytes
    → read_counting size (at s 0 n)
      ≡ (record { bytes = []; error = some (sentinel upload_too_large) }, probed s n)
unfolding read_counting
read_counting-probe_over size s n h = ground arith
