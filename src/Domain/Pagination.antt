-- ===== src/Domain/Pagination.antt =====
-- internal/domain/pagination.go.
pub mod Bounds
use api_example.Prelude.{ℕ, ◌+◌, ◌-◌, ◌*◌, ◌%◌, ◌^◌, ◌≤◌, ◌<◌, ◌≡◌, refl, arith, ltb, if◌then◌else◌}
use api_example.Prelude.Int.{ℤ, pos, negsuc, pos_part, neg_part, ◌-ℤ◌, ◌*ℤ◌, ◌≤ℤ◌, ltb_ℤ, int_laws}

pub record Pagination : Type 0 where
  pub page : ℤ
  pub page_size : ℤ

-- `NormalizePagination`
unfoldable pub normalize_pagination : ℤ → ℤ → Pagination
normalize_pagination page page_size =
    let page' = if ltb_ℤ page (pos 1) then pos 1 else page in
    let size = if ltb_ℤ page_size (pos 1) then pos 20 else page_size in
    let size' = if ltb_ℤ (pos 100) size then pos 100 else size in
    record { page = page'; page_size = size' }

-- The w-bit pattern of an integer, and the conversion to a signed integer of that width.
abbrev pub bit_pattern : ℕ → ℤ → ℕ
bit_pattern m a = (pos_part a + (m - neg_part a % m)) % m

abbrev pub as_signed : ℕ → ℕ → ℤ
as_signed m u = if ltb (u + u) m then pos u else negsuc (m - 1 - u)

-- The conversion int32(n), and the wrap of an int (of 64 bits).
unfoldable pub to_int32 : ℤ → ℤ
to_int32 a = as_signed (2 ^ 32) (bit_pattern (2 ^ 32) a)

unfoldable pub to_int64 : ℤ → ℤ
to_int64 a = as_signed (2 ^ 64) (bit_pattern (2 ^ 64) a)

-- `Pagination.Limit`
unfoldable pub limit : Pagination → ℤ
unfolding to_int32
limit p = to_int32 p.page_size

-- `Pagination.Offset`
unfoldable pub offset : Pagination → ℤ
unfolding to_int32 to_int64 ◌-ℤ◌ ◌*ℤ◌
offset p = to_int32 (to_int64 (to_int64 (p.page -ℤ pos 1) *ℤ p.page_size))
