-- ===== src/Domain/Pagination/Bounds.antt =====
-- What `NormalizePagination`, `Limit` and `Offset` compute.
use api_example.Prelude.{
  ℕ, suc, ◌-◌, ◌*◌, ◌≤◌, ◌<◌, ◌≡◌, refl, Bool, true, false, arith, ltb, if◌then◌else◌,
}
use api_example.Prelude.Int.{ℤ, pos, negsuc, ◌≤ℤ◌, ◌-ℤ◌, ◌*ℤ◌}
use api_example.Domain.Pagination.{normalize_pagination, limit, offset, to_int32, to_int64}

to_int32_lem : (n : ℕ) → n < 2147483648 → to_int32 (pos n) ≡ pos n
unfolding to_int32
to_int32_lem n h = ground arith

to_int64_lem : (n : ℕ) → n < 9223372036854775808 → to_int64 (pos n) ≡ pos n
unfolding to_int64
to_int64_lem n h = ground arith

to_int32_wraps :
    (n : ℕ) → 2147483648 ≤ n → n < 4294967296 → to_int32 (pos n) ≡ negsuc (4294967295 - n)
unfolding to_int32
to_int32_wraps n h k = ground arith

to_int32_keeps : (a : ℤ) → pos 1 ≤ℤ a → a ≤ℤ pos 100 → to_int32 a ≡ a
to_int32_keeps (pos n) h k = to_int32_lem n (omega arith)
to_int32_keeps (negsuc n) h k = absurd (omega arith)

minus_one : (p : ℕ) → pos (suc p) -ℤ pos 1 ≡ pos p
unfolding ◌-ℤ◌
minus_one p = ground arith

times : (a b : ℕ) → pos a *ℤ pos b ≡ pos (a * b)
unfolding ◌*ℤ◌
times a b = ground arith

-- A page that is asked for is brought into bounds: its number is at least 1, and its size at least
-- 1 and at most 100, which the conversion to an int32 keeps. A request within the bounds stays as
-- it is.
pub normalize_pagination_lem :
    (page size : ℤ)
    → (pos 1 ≤ℤ (normalize_pagination page size).page)
      × (pos 1 ≤ℤ (normalize_pagination page size).page_size)
      × ((normalize_pagination page size).page_size ≤ℤ pos 100)
      × (limit (normalize_pagination page size) ≡ (normalize_pagination page size).page_size)
      × (pos 1 ≤ℤ page
          → pos 1 ≤ℤ size
          → size ≤ℤ pos 100
          → normalize_pagination page size ≡ record { page = page; page_size = size })
unfolding normalize_pagination limit
normalize_pagination_lem page size = (
  ground arith,
  at_least,
  at_most,
  to_int32_keeps (normalize_pagination page size).page_size at_least at_most,
  λ a b c. ground arith,
)
  where
    at_least : pos 1 ≤ℤ (normalize_pagination page size).page_size
    at_least = ground arith

    at_most : (normalize_pagination page size).page_size ≤ℤ pos 100
    at_most = ground arith

-- For a page below 2 ^ 32, the offset is the number of the rows before it, (page - 1) * size, where
-- that number is below 2 ^ 31. From there up to 2 ^ 32 it is off by 2 ^ 32, and so negative.
pub offset_lem :
    (p size : ℕ)
    → p < 4294967296
    → p * size < 4294967296
    → offset (record { page = pos (suc p); page_size = pos size })
      ≡ (if ltb (p * size) 2147483648 then pos (p * size) else negsuc (4294967295 - p * size))
unfolding offset
offset_lem p size h k =
    rw
      (
        minus_one p,
        to_int64_lem p (omega arith),
        times p size,
        to_int64_lem (p * size) (omega arith),
      )
      (by_size (ltb (p * size) 2147483648) refl)
  where
    by_size :
        (b : Bool)
        → ltb (p * size) 2147483648 ≡ b
        → to_int32 (pos (p * size)) ≡ (if b then pos (p * size) else negsuc (4294967295 - p * size))
    by_size true e = to_int32_lem (p * size) (ground arith)
    by_size false e = to_int32_wraps (p * size) (ground arith) k
