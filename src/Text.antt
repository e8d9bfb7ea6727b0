-- ===== src/Text.antt =====
-- Go's strings as lists of bytes, and the functions of the standard library's package strings that
-- the program calls on them.
pub mod Segments
pub mod Path
pub mod Decimal
pub mod Hex
pub mod Numeral
use Prim.Native.Char.{code}
use api_example.Prelude.{
  ℕ, suc, ◌+◌, ◌-◌, ◌≡◌, refl, ◌↔◌, Bool, true, false, ◌&&◌, ◌||◌, List, [], ◌∷◌, ◌++◌, map,
  reverse, String, arith, ltb, leb, ◌==◌, if◌then◌else◌, length, take,
}

abbrev pub Text : Type 0
Text = List ℕ

-- The bytes of a literal; the program's literals are ASCII.
unfoldable pub text : String → Text
text String.[] = []
text (String.◌∷◌ c s) = code c ∷ text s

-- The operator == on strings.
unfoldable pub text_eq : Text → Text → Bool
text_eq [] [] = true
text_eq [] (d ∷ t) = false
text_eq (c ∷ s) [] = false
text_eq (c ∷ s) (d ∷ t) = c == d && text_eq s t

pub text_eq_iff : (s t : Text) → ((text_eq s t) ≡ true) ↔ (s ≡ t)
unfolding text_eq
text_eq_iff [] [] = ground arith
text_eq_iff [] (d ∷ t) = ground arith
text_eq_iff (c ∷ s) [] = ground arith
text_eq_iff (c ∷ s) (d ∷ t) = ground (arith, text_eq_iff s t)

pub text_eq_refl : (s : Text) → (text_eq s s) ≡ true
text_eq_refl s = (text_eq_iff s s).1 refl

abbrev pub is_empty : Text → Bool
is_empty [] = true
is_empty (c ∷ s) = false

-- strings.HasPrefix
unfoldable pub has_prefix : Text → Text → Bool
has_prefix s [] = true
has_prefix [] (p ∷ ps) = false
has_prefix (c ∷ s) (p ∷ ps) = c == p && has_prefix s ps

-- strings.Contains
unfoldable pub contains : Text → Text → Bool
unfolding has_prefix
contains [] t = is_empty t
contains (c ∷ s) t = has_prefix (c ∷ s) t || contains s t

-- strings.ReplaceAll for one byte by one byte.
unfoldable pub replace_byte : ℕ → ℕ → Text → Text
replace_byte old new = map (λ c. if c == old then new else c)

-- The space characters of unicode.IsSpace as they stand at the front of a text: the number of bytes
-- of the first one, or 0.
unfoldable pub space_width : Text → ℕ
space_width [] = 0
space_width (c ∷ []) = if leb 9 c && leb c 13 || c == 32 then 1 else 0
space_width (c ∷ d ∷ []) =
    if leb 9 c && leb c 13 || c == 32
    then 1
    else if c == 0xc2 && (d == 0x85 || d == 0xa0)
    then 2
    else 0
space_width (c ∷ d ∷ e ∷ s) =
    if leb 9 c && leb c 13 || c == 32
    then 1
    else if c == 0xc2 && (d == 0x85 || d == 0xa0)
    then 2
    else if c == 0xe1 && d == 0x9a && e == 0x80
        || c == 0xe2
          && d == 0x80
          && (leb 0x80 e && leb e 0x8a || e == 0xa8 || e == 0xa9 || e == 0xaf)
        || c == 0xe2 && d == 0x81 && e == 0x9f
        || c == 0xe3 && d == 0x80 && e == 0x80
    then 3
    else 0

-- The same at the back: the argument is the text reversed.
unfoldable pub space_width_back : Text → ℕ
unfolding space_width
space_width_back [] = 0
space_width_back (c ∷ []) = space_width (c ∷ [])
space_width_back (d ∷ c ∷ []) =
    if space_width (d ∷ []) == 1 then 1 else if space_width (c ∷ d ∷ []) == 2 then 2 else 0
space_width_back (e ∷ d ∷ c ∷ s) =
    if space_width (e ∷ []) == 1
    then 1
    else if space_width (d ∷ e ∷ []) == 2
    then 2
    else if space_width (c ∷ d ∷ e ∷ []) == 3
    then 3
    else 0

-- Drops space characters; the first argument counts the bytes of one that are still to be dropped.
unfoldable pub trim_from : (Text → ℕ) → ℕ → Text → Text
trim_from width skip [] = []
trim_from width (suc skip) (c ∷ s) = trim_from width skip s
trim_from width ℕ.zero (c ∷ s) =
    let rest = trim_from width (width (c ∷ s) - 1) s in if width (c ∷ s) == 0 then c ∷ s else rest

-- strings.TrimSpace
unfoldable pub trim_space : Text → Text
unfolding trim_from space_width space_width_back
trim_space s = reverse (trim_from space_width_back 0 (reverse (trim_from space_width 0 s)))

-- strings.TrimLeft, TrimRight and Trim with a cutset of one byte.
unfoldable pub trim_left : ℕ → Text → Text
trim_left b [] = []
trim_left b (c ∷ s) = if c == b then trim_left b s else c ∷ s

unfoldable pub trim_right : ℕ → Text → Text
unfolding trim_left
trim_right b s = reverse (trim_left b (reverse s))

unfoldable pub trim : ℕ → Text → Text
unfolding trim_right
trim b s = trim_right b (trim_left b s)

-- strings.ToLower: the ASCII path, and the Unicode tables as an argument.
unfoldable pub is_ascii : Text → Bool
is_ascii [] = true
is_ascii (c ∷ s) = ltb c 0x80 && is_ascii s

unfoldable pub lower_byte : ℕ → ℕ
lower_byte c = if leb b'A' c && leb c b'Z' then c + 32 else c

unfoldable pub to_lower : (Text → Text) → Text → Text
unfolding is_ascii lower_byte
to_lower unicode_lower s = if is_ascii s then map lower_byte s else unicode_lower s
