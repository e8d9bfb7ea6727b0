-- ===== src/Tokens/Bearer.antt =====
-- The header of a request that carries a token.
use mathlib.Core.List.{reverse-cons, reverse-reverse}
use api_example.Prelude.{ℕ, ◌≤◌, ◌≡◌, refl, ap, ◌∙◌, ◌≢◌, false, [], ◌∷◌, ◌++◌, reverse, arith}
use api_example.Prelude.Maps.{All, All-append}
use api_example.Text.{Text, contains, trim_space, trim_from, space_width, space_width_back}
use api_example.Tokens.{extract_bearer_token, bearer_prefix, token_of}

-- Visible ASCII.
abbrev pub IsVisible : ℕ → Type 0
IsVisible c = (33 ≤ c) × (c ≤ 126)

-- The compact form of a token, as the header is to carry it.
abbrev pub IsToken : Text → Type 0
IsToken s = (s ≢ []) × All IsVisible s

space_width-IsVisible : (s : Text) → All IsVisible s → space_width s ≡ 0
unfolding space_width
space_width-IsVisible [] h = refl
space_width-IsVisible (c ∷ []) h = ground arith
space_width-IsVisible (c ∷ d ∷ []) h = ground arith
space_width-IsVisible (c ∷ d ∷ e ∷ s) h = ground arith

space_width_back-IsVisible : (s : Text) → All IsVisible s → space_width_back s ≡ 0
unfolding space_width_back
space_width_back-IsVisible [] h = refl
space_width_back-IsVisible (c ∷ []) h = space_width-IsVisible (c ∷ []) h
space_width_back-IsVisible (d ∷ c ∷ []) h = rw (
  space_width-IsVisible (d ∷ []) (h.0, tt),
  space_width-IsVisible (c ∷ d ∷ []) (h.1.0, (h.0, tt)),
)
space_width_back-IsVisible (e ∷ d ∷ c ∷ s) h = rw (
  space_width-IsVisible (e ∷ []) (h.0, tt),
  space_width-IsVisible (d ∷ e ∷ []) (h.1.0, (h.0, tt)),
  space_width-IsVisible (c ∷ d ∷ e ∷ []) (h.1.1.0, (h.1.0, (h.0, tt))),
)

trim_from_keeps : (width : Text → ℕ) (s : Text) → width s ≡ 0 → trim_from width 0 s ≡ s
unfolding trim_from
trim_from_keeps width [] h = refl
trim_from_keeps width (c ∷ s) h = rw h

All-reverse : (s : Text) → All IsVisible s → All IsVisible (reverse s)
All-reverse [] h = tt
All-reverse (c ∷ s) h =
    rw (reverse-cons c s) (All-append IsVisible (reverse s) (c ∷ []) (All-reverse s h.1) (h.0, tt))

pub trim_space-IsVisible : (s : Text) → All IsVisible s → trim_space s ≡ s
unfolding trim_space
trim_space-IsVisible s h = rw (trim_from_keeps space_width s (space_width-IsVisible s h)) (
    rw
      (trim_from_keeps space_width_back (reverse s)
        (space_width_back-IsVisible (reverse s) (All-reverse s h)))
      (reverse-reverse s))

contains_space : (s : Text) → All IsVisible s → contains s (32 ∷ []) ≡ false
unfolding contains
contains_space [] h = refl
contains_space (c ∷ s) h = ground (arith, contains_space s h.1)

token_of-IsToken : (value : Text) → IsToken value → token_of value ≡ value
token_of-IsToken [] h = refl
token_of-IsToken (c ∷ s) h = rw (contains_space (c ∷ s) h.1)

-- A header "Bearer " followed by a token gives the token.
pub extract_bearer_token_lem :
    (value : Text) → IsToken value → extract_bearer_token (bearer_prefix ++ value) ≡ value
unfolding extract_bearer_token
extract_bearer_token_lem value h =
    ap token_of (trim_space-IsVisible value h.1) ∙ token_of-IsToken value h
