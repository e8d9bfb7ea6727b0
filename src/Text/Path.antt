-- ===== src/Text/Path.antt =====
-- The lexical functions of the standard library's packages path and path/filepath (on a Unix
-- system) that the program calls: Clean, Join, Base and IsAbs.
pub mod Normal
use api_example.Prelude.{
  ℕ, ◌≡◌, refl, ◌≢◌, ◌⊎◌, inl, inr, Bool, true, false, ◌&&◌, ◌||◌, List, [], ◌∷◌, ◌++◌, reverse,
  arith, ◌==◌, if◌then◌else◌,
}
use api_example.Prelude.Maps.{All, All-append}
use api_example.Text.{Text, text, text_eq, text_eq_iff, is_empty, trim_left}
use api_example.Text.Segments.{split, join, Lacks, split-Lacks}

abbrev pub slash : ℕ
slash = b'/'

abbrev pub dot : Text
dot = b'.' ∷ []

abbrev pub dot_dot : Text
dot_dot = b'.' ∷ b'.' ∷ []

-- path.IsAbs
abbrev pub is_abs : Text → Bool
is_abs [] = false
is_abs (c ∷ s) = c == slash

-- One "..": it takes back the segment before it, if there is one to take back.
abbrev pop_segment : Bool → List Text → List Text
pop_segment true [] = []
pop_segment false [] = dot_dot ∷ []
pop_segment rooted (top ∷ rest) = if text_eq top dot_dot then dot_dot ∷ top ∷ rest else rest

abbrev push_segment : Bool → List Text → Text → List Text
push_segment rooted stack seg =
    if is_empty seg || text_eq seg dot
    then stack
    else if text_eq seg dot_dot
    then pop_segment rooted stack
    else seg ∷ stack

-- The segments that are left, the last one first.
unfoldable pub clean_segments : Bool → List Text → List Text → List Text
clean_segments rooted stack [] = stack
clean_segments rooted stack (seg ∷ segs) =
    clean_segments rooted (push_segment rooted stack seg) segs

abbrev clean_body : Bool → Text → Text
clean_body true body = slash ∷ body
clean_body false [] = dot
clean_body false (c ∷ body) = c ∷ body

-- path.Clean
unfoldable pub clean : Text → Text
unfolding clean_segments
clean s =
    let rooted = is_abs s in
    clean_body rooted (join slash (reverse (clean_segments rooted [] (split slash s))))

-- path.Join of two elements.
unfoldable pub path_join : Text → Text → Text
unfolding clean
path_join a b =
    if is_empty a && is_empty b
    then []
    else if is_empty a
    then clean b
    else if is_empty b
    then clean a
    else clean (a ++ slash ∷ b)

-- What follows the bytes before the first slash, with that slash.
unfoldable pub from_slash : Text → Text
from_slash [] = []
from_slash (c ∷ s) = if c == slash then c ∷ s else from_slash s

-- filepath.Dir: what stands before the last slash, cleaned.
unfoldable pub dir : Text → Text
unfolding from_slash clean
dir s = clean (reverse (from_slash (reverse s)))

-- The bytes up to the first slash.
unfoldable pub until_slash : Text → Text
until_slash [] = []
until_slash (c ∷ s) = if c == slash then [] else c ∷ until_slash s

abbrev base_name : Text → Text
base_name [] = slash ∷ []
base_name (c ∷ s) = c ∷ s

-- filepath.Base: the last element, after the slashes at the end are dropped.
unfoldable pub base : Text → Text
unfolding until_slash trim_left
base [] = dot
base (c ∷ s) = base_name (reverse (until_slash (trim_left slash (reverse (c ∷ s)))))
