-- ===== src/Text/Decimal.antt =====
-- Decimal numerals: the verb %d of fmt and strconv.FormatInt in base 10.
use api_example.Prelude.{
  ℕ, zero, suc, ◌+◌, ◌/◌, ◌%◌, ◌≤◌, ◌<◌, ◌≢◌, [], ◌∷◌, arith, ltb, if◌then◌else◌,
}
use api_example.Prelude.Int.{ℤ, pos, negsuc}
use api_example.Prelude.Maps.{All}
use api_example.Text.{Text}

-- The digits of a number, before those that stand already; the fuel bounds their number.
unfoldable pub digits_from : ℕ → ℕ → Text → Text
digits_from zero n acc = acc
digits_from (suc fuel) n acc =
    let rest = digits_from fuel (n / 10) ((b'0' + n % 10) ∷ acc) in
    if ltb n 10 then (b'0' + n % 10) ∷ acc else rest

unfoldable pub format_nat : ℕ → Text
unfolding digits_from
format_nat n = digits_from (suc n) n []

-- strconv.FormatInt
unfoldable pub format_int : ℤ → Text
unfolding format_nat
format_int (pos n) = format_nat n
format_int (negsuc n) = b'-' ∷ format_nat (suc n)

abbrev pub IsDigit : ℕ → Type 0
IsDigit c = (b'0' ≤ c) × (c ≤ b'9')

-- The texts that %d prints for a natural number: one digit or more.
abbrev pub IsNumeral : Text → Type 0
IsNumeral s = (s ≢ []) × All IsDigit s

digits_from-IsNumeral :
    (fuel n : ℕ) (acc : Text) → 0 < fuel → All IsDigit acc → IsNumeral (digits_from fuel n acc)
unfolding digits_from
digits_from-IsNumeral zero n acc h k = elim h [ ]
digits_from-IsNumeral (suc zero) n acc h k = ground arith
digits_from-IsNumeral (suc (suc fuel)) n acc h k =
    ground (arith, digits_from-IsNumeral (suc fuel) (n / 10) ((b'0' + n % 10) ∷ acc))

pub format_nat-IsNumeral : (n : ℕ) → IsNumeral (format_nat n)
unfolding format_nat
format_nat-IsNumeral n = digits_from-IsNumeral (suc n) n [] (omega arith) tt
