-- ===== src/Text/Numeral.antt =====
-- strconv.ParseInt in base 10 for 64 bits, which strconv.Atoi agrees with: the integer, or an error.
use api_example.Prelude.{
  ℕ, zero, suc, ◌+◌, ◌-◌, ◌*◌, ◌/◌, ◌%◌, ◌<◌, ◌≡◌, refl, ap, ◌∙◌, ◌≢◌, Bool, true, ◌&&◌, [], ◌∷◌,
  Option, none, some, arith, ltb, leb, ◌==◌, if◌then◌else◌, Bool-cases, inl, inr,
}
use api_example.Prelude.Int.{ℤ, pos, negsuc}
use api_example.Text.{Text}
use api_example.Text.Decimal.{digits_from, format_nat, format_int, IsNumeral, format_nat-IsNumeral}

abbrev pub is_digit : ℕ → Bool
is_digit c = leb b'0' c && leb c b'9'

-- The digits of a text, after those that were read.
unfoldable pub parse_digits : ℕ → Text → Option ℕ
parse_digits n [] = some n
parse_digits n (c ∷ s) = if is_digit c then parse_digits (n * 10 + (c - b'0')) s else none

abbrev pub positive : Option ℕ → Option ℤ
positive none = none
positive (some n) = if ltb n 9223372036854775808 then some (pos n) else none

-- The integer -n.
abbrev pub negated : ℕ → ℤ
negated zero = pos 0
negated (suc n) = negsuc n

abbrev pub negative : Option ℕ → Option ℤ
negative none = none
negative (some n) = if leb n 9223372036854775808 then some (negated n) else none

abbrev pub unsigned : Text → Option ℕ
unsigned [] = none
unsigned (c ∷ s) = parse_digits 0 (c ∷ s)

unfoldable pub parse_int : Text → Option ℤ
unfolding parse_digits
parse_int [] = none
parse_int (c ∷ s) =
    if c == b'-'
    then negative (unsigned s)
    else if c == b'+'
    then positive (unsigned s)
    else positive (unsigned (c ∷ s))

parse_digits_step :
    (n d : ℕ) (s : Text) → d < 10 → parse_digits n ((b'0' + d) ∷ s) ≡ parse_digits (n * 10 + d) s
unfolding parse_digits
parse_digits_step n d s h =
    let digit : is_digit (b'0' + d) ≡ true = ground arith in
    rw digit (ap (λ k. parse_digits k s) (omega arith))

parse_digits-digits_from :
    (fuel n : ℕ) (acc : Text)
    → n < fuel
    → parse_digits 0 (digits_from fuel n acc) ≡ parse_digits n acc
unfolding digits_from
parse_digits-digits_from zero n acc h = elim h [ ]
parse_digits-digits_from (suc fuel) n acc h = elim (Bool-cases (ltb n 10)) [
  | inl small ↦
      rw small (
        parse_digits_step 0 (n % 10) acc (omega arith)
        ∙ ap (λ k. parse_digits k acc) (ground arith))
  | inr large ↦ rw large (
      parse_digits-digits_from fuel (n / 10) ((b'0' + n % 10) ∷ acc) (ground arith)
      ∙ parse_digits_step (n / 10) (n % 10) acc (omega arith)
      ∙ ap (λ k. parse_digits k acc) (omega arith))
]

parse_digits-format_nat : (n : ℕ) → parse_digits 0 (format_nat n) ≡ some n
unfolding format_nat parse_digits
parse_digits-format_nat n = parse_digits-digits_from (suc n) n [] (omega arith)

unsigned-format_nat : (n : ℕ) → unsigned (format_nat n) ≡ some n
unsigned-format_nat n = by_shape (format_nat n) (format_nat-IsNumeral n) (parse_digits-format_nat n)
  where
    by_shape : (s : Text) → IsNumeral s → parse_digits 0 s ≡ some n → unsigned s ≡ some n
    by_shape [] h e = absurd (h.0 refl)
    by_shape (c ∷ s) h e = e

parse_int-IsNumeral : (s : Text) → IsNumeral s → parse_int s ≡ positive (unsigned s)
unfolding parse_int
parse_int-IsNumeral [] h = absurd (h.0 refl)
parse_int-IsNumeral (c ∷ s) h = ground arith

-- The integers of 64 bits.
abbrev pub IsInt64 : ℤ → Type 0
IsInt64 (pos n) = n < 9223372036854775808
IsInt64 (negsuc n) = n < 9223372036854775808

-- ParseInt reads back what FormatInt prints of any integer of 64 bits.
pub parse_int-format_int : (a : ℤ) → IsInt64 a → parse_int (format_int a) ≡ some a
unfolding parse_int format_int
parse_int-format_int (pos n) h =
    parse_int-IsNumeral (format_nat n) (format_nat-IsNumeral n)
    ∙ rw (unsigned-format_nat n) (ground arith)
parse_int-format_int (negsuc n) h = rw (unsigned-format_nat (suc n)) (ground arith)

pub format_int-ne-nil : (a : ℤ) → format_int a ≢ []
unfolding format_int
format_int-ne-nil (pos n) e = (format_nat-IsNumeral n).0 e
format_int-ne-nil (negsuc n) e = cc
