-- ===== src/Text/Segments.antt =====
-- strings.Split and strings.Join for a separator of one byte, and the laws that relate them.
use api_example.Prelude.{ℕ, ◌≡◌, refl, ◌≢◌, List, [], ◌∷◌, ◌++◌, arith, ◌==◌, if◌then◌else◌}
use api_example.Prelude.Maps.{All}

-- A text is a list of bytes, as `Text` of the parent, which passes nothing of this module on.
abbrev Bytes : Type 0
Bytes = List ℕ

abbrev cons_head : ℕ → List Bytes → List Bytes
cons_head c [] = (c ∷ []) ∷ []
cons_head c (x ∷ xs) = (c ∷ x) ∷ xs

-- strings.Split
unfoldable pub split : ℕ → Bytes → List Bytes
split b [] = [] ∷ []
split b (c ∷ s) = let rest = split b s in if c == b then [] ∷ rest else cons_head c rest

-- strings.Join
unfoldable pub join : ℕ → List Bytes → Bytes
join b [] = []
join b (x ∷ []) = x
join b (x ∷ y ∷ r) = x ++ b ∷ join b (y ∷ r)

-- The byte does not occur.
abbrev pub Lacks : ℕ → Bytes → Type 0
Lacks b s = All (λ c. c ≢ b) s

split-cons_ne_nil : (b : ℕ) (s : Bytes) → split b s ≢ []
unfolding split
split-cons_ne_nil b [] = ground arith
split-cons_ne_nil b (c ∷ s) = ground arith

join-cons_head : (b c : ℕ) (xs : List Bytes) → xs ≢ [] → join b (cons_head c xs) ≡ c ∷ join b xs
unfolding join
join-cons_head b c [] h = absurd (h refl)
join-cons_head b c (x ∷ []) h = refl
join-cons_head b c (x ∷ y ∷ r) h = refl

join-empty : (b : ℕ) (xs : List Bytes) → xs ≢ [] → join b ([] ∷ xs) ≡ b ∷ join b xs
unfolding join
join-empty b [] h = absurd (h refl)
join-empty b (x ∷ xs) h = refl

-- Joining what was split gives the text back.
pub join-split : (b : ℕ) (s : Bytes) → join b (split b s) ≡ s
unfolding split
join-split b [] = unfold join in refl
join-split b (c ∷ s) = ground (
  arith,
  join-split b s,
  split-cons_ne_nil b s,
  join-cons_head b c (split b s),
  join-empty b (split b s),
)

-- What a split yields does not hold the separator.
pub split-Lacks : (b : ℕ) (s : Bytes) → All (Lacks b) (split b s)
unfolding split
split-Lacks b [] = ground arith
split-Lacks b (c ∷ s) = cons_split (split b s) (split-Lacks b s)
  where
    cons_split :
        (xs : List Bytes)
        → All (Lacks b) xs
        → All (Lacks b) (if c == b then [] ∷ xs else cons_head c xs)
    cons_split [] h = ground arith
    cons_split (x ∷ xs) h = ground arith

split_Lacks : (b : ℕ) (s : Bytes) → Lacks b s → split b s ≡ s ∷ []
unfolding split
split_Lacks b [] h = refl
split_Lacks b (c ∷ s) h = ground (arith, split_Lacks b s h.1)

split-append : (b : ℕ) (s t : Bytes) → Lacks b s → split b (s ++ b ∷ t) ≡ s ∷ split b t
unfolding split
split-append b [] t h = ground arith
split-append b (c ∷ s) t h = ground (arith, split-append b s t h.1)

-- Splitting what was joined gives the segments back, if none holds the separator.
pub split-join : (b : ℕ) (xs : List Bytes) → xs ≢ [] → All (Lacks b) xs → split b (join b xs) ≡ xs
unfolding join
split-join b [] h k = absurd (h refl)
split-join b (x ∷ []) h k = split_Lacks b x k.0
split-join b (x ∷ y ∷ r) h k =
    rw (split-append b x (join b (y ∷ r)) k.0) (rw (split-join b (y ∷ r) (ground arith) k.1))
