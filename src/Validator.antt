-- ===== src/Validator.antt =====
-- pkg/validator/validator.go. mail.ParseAddress is a parameter: the address that it finds in a text.
use api_example.Prelude.{◌||◌, Option, none, some, ◌++◌, if◌then◌else◌}
use api_example.Prelude.Int.{ℤ, pos, ltb_ℤ}
use api_example.Text.{Text, text, text_eq, is_empty, trim_space, to_lower}
use api_example.Text.Decimal.{format_int}
use api_example.Text.Numeral.{parse_int}
use api_example.Errors.{Error, plain}
use api_example.Exec.{Result, ok, err}

pub record Mail : Type 0 where
  pub parse_address : Text → Option Text
  pub unicode_lower : Text → Text

abbrev accepted_address : Text → Option Text → Result Text
accepted_address normalized none = err (plain (text "invalid email address"))
accepted_address normalized (some address) =
    if text_eq address normalized then ok normalized else err (plain (text "invalid email address"))

-- `Email`
unfoldable pub email : Mail → Text → Result Text
email m value =
    let normalized = to_lower m.unicode_lower (trim_space value) in
    accepted_address normalized (m.parse_address normalized)

abbrev page_number : Option ℤ → Result ℤ
page_number none = err (plain (text "page must be a positive integer"))
page_number (some page) =
    if ltb_ℤ page (pos 1) then err (plain (text "page must be a positive integer")) else ok page

abbrev size_error : ℤ → Error
size_error max_size = plain (text "page_size must be between 1 and " ++ format_int max_size)

abbrev size_number : ℤ → Option ℤ → Result ℤ
size_number max_size none = err (size_error max_size)
size_number max_size (some size) =
    if ltb_ℤ size (pos 1) || ltb_ℤ max_size size then err (size_error max_size) else ok size

abbrev both : Result ℤ → Result ℤ → Result (ℤ × ℤ)
both (err e) size = err e
both (ok page) (err e) = err e
both (ok page) (ok size) = ok (page, size)

-- `Pagination`
unfoldable pub pagination : Text → Text → ℤ → ℤ → Result (ℤ × ℤ)
pagination page_value size_value default_size max_size =
    both (if is_empty page_value then ok (pos 1) else page_number (parse_int page_value))
      (if is_empty size_value then ok default_size else size_number max_size (parse_int size_value))
