-- ===== src/Upload.antt =====
-- The readers of an upload: an io.Reader as a script of what it yields, `maxBytesReader` and
-- `countingReader` of internal/service/document_service.go, and the loop of io.Copy over them.
pub mod Copy
pub mod Reads
pub mod Bounds
use api_example.Prelude.{
  ℕ, zero, suc, ◌+◌, ◌-◌, Bool, true, false, Option, none, some, List, [], ◌∷◌, ◌++◌, ltb, leb,
  ◌==◌, if◌then◌else◌, length, take, drop,
}
use api_example.Errors.{Error, sentinel, eof, upload_too_large}

-- What a reader has still to yield: chunks, and the last bytes with the error that ends it (io.EOF
-- if all went well). A Read yields no more than one chunk.
pub data Script : Type 0 where
  last : List ℕ → Error → Script
  chunk : List ℕ → Script → Script

-- The results (n, err) of Read, with the bytes that it put in the buffer.
pub record ReadResult : Type 0 where
  pub bytes : List ℕ
  pub error : Option Error

-- Read with a buffer of `size` bytes.
unfoldable pub read_script : ℕ → Script → ReadResult × Script
read_script size (last bs e) =
    if leb (length bs) size
    then (record { bytes = bs; error = some e }, last [] e)
    else (record { bytes = take size bs; error = none }, last (drop size bs) e)
read_script size (chunk bs rest) =
    if leb (length bs) size
    then (record { bytes = bs; error = none }, rest)
    else (record { bytes = take size bs; error = none }, chunk (drop size bs) rest)

-- `maxBytesReader`; `remaining` starts at the configured maximum, which is positive.
pub record MaxBytesReader : Type 0 where
  pub reader : Script
  pub remaining : ℕ
  pub checked_overflow : Bool

-- The probe for one more byte, when nothing remains.
abbrev probe : MaxBytesReader → ReadResult × Script → ReadResult × MaxBytesReader
probe m (r, rest) = (
  if ltb 0 (length r.bytes)
      then record { bytes = []; error = some (sentinel upload_too_large) }
      else record { bytes = []; error = r.error },
  record m { reader = rest; checked_overflow = true },
)

abbrev spend : MaxBytesReader → ReadResult × Script → ReadResult × MaxBytesReader
spend m (r, rest) = (r, record m { reader = rest; remaining = m.remaining - length r.bytes })

-- `maxBytesReader.Read`
unfoldable pub read_max : ℕ → MaxBytesReader → ReadResult × MaxBytesReader
read_max size m =
    if m.remaining == 0
    then if m.checked_overflow
      then (record { bytes = []; error = some (sentinel eof) }, m)
      else probe m (read_script 1 m.reader)
    else spend m (read_script (if ltb m.remaining size then m.remaining else size) m.reader)

-- `countingReader`
pub record CountingReader : Type 0 where
  pub reader : MaxBytesReader
  pub count : ℕ

abbrev tally : CountingReader → ReadResult × MaxBytesReader → ReadResult × CountingReader
tally c (r, m) = (r, record { reader = m; count = c.count + length r.bytes })

-- `countingReader.Read`
unfoldable pub read_counting : ℕ → CountingReader → ReadResult × CountingReader
unfolding read_max
read_counting size c = tally c (read_max size c.reader)

-- The reader that `Create` hands to the storage.
unfoldable pub limited : ℕ → Script → CountingReader
limited max body = record {
  reader = record { reader = body; remaining = max; checked_overflow = false };
  count = 0;
}
