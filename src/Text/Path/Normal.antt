-- ===== src/Text/Path/Normal.antt =====
-- What path.Clean leaves: a path that is its own cleaning has no empty segment and no "." segment,
-- and ".." only at its front.
use api_example.Prelude.{
  ◌≡◌, refl, sym, ap, ◌∙◌, ◌≢◌, ◌⊎◌, inl, inr, Bool, true, false, List, [], ◌∷◌, ◌++◌, reverse,
  arith, if◌then◌else◌,
}
use mathlib.Core.List.{reverse-cons, reverse-reverse}
use api_example.Prelude.Maps.{All, All-append}
use api_example.Text.{Text, text_eq, text_eq_iff}
use api_example.Text.Segments.{split, join, Lacks, split-Lacks, split-join}
use api_example.Text.Path.{
  slash, dot, dot_dot, is_abs, pop_segment, push_segment, clean_segments, clean_body, clean,
}

-- A segment that names an entry of its directory.
pub record IsEntry (seg : Text) : Type 0 where
  pub filled : seg ≢ []
  pub not_dot : seg ≢ dot
  pub not_dot_dot : seg ≢ dot_dot

-- A stack of segments, the last first: entries above some "..".
abbrev IsStack : List Text → Type 0
IsStack [] = Unit
IsStack (x ∷ xs) = (IsEntry x × IsStack xs) ⊎ ((x ≡ dot_dot) × All (λ y. y ≡ dot_dot) xs)

All-IsStack : (xs : List Text) → All (λ y. y ≡ dot_dot) xs → IsStack xs
All-IsStack [] h = tt
All-IsStack (x ∷ xs) h = inr (h.0, h.1)

IsStack-tail : (x : Text) (xs : List Text) → IsStack (x ∷ xs) → IsStack xs
IsStack-tail x xs (inl h) = h.1
IsStack-tail x xs (inr h) = All-IsStack xs h.1

pop_segment-IsStack : (xs : List Text) → IsStack xs → IsStack (pop_segment false xs)
pop_segment-IsStack [] h = inr (refl, tt)
pop_segment-IsStack (x ∷ xs) h = pop (text_eq x dot_dot) (text_eq_iff x dot_dot).0 h
  where
    pop :
        (b : Bool)
        → (b ≡ true → x ≡ dot_dot)
        → IsStack (x ∷ xs)
        → IsStack (if b then dot_dot ∷ x ∷ xs else xs)
    pop true e (inl k) = absurd (k.0.not_dot_dot (e refl))
    pop true e (inr k) = inr (refl, k)
    pop false e k = IsStack-tail x xs k

push_segment-IsStack :
    (xs : List Text) (seg : Text) → IsStack xs → IsStack (push_segment false xs seg)
push_segment-IsStack xs [] h = h
push_segment-IsStack xs (c ∷ seg) h =
    push (text_eq (c ∷ seg) dot) (text_eq (c ∷ seg) dot_dot) (text_eq_iff (c ∷ seg) dot).1
      (text_eq_iff (c ∷ seg) dot_dot).1
  where
    push :
        (b d : Bool)
        → ((c ∷ seg) ≡ dot → b ≡ true)
        → ((c ∷ seg) ≡ dot_dot → d ≡ true)
        → IsStack (if b then xs else if d then pop_segment false xs else (c ∷ seg) ∷ xs)
    push true d e f = h
    push false true e f = pop_segment-IsStack xs h
    push false false e f =
        inl (
          record { filled = ground arith; not_dot = λ p. cc (e p); not_dot_dot = λ p. cc (f p) },
          h,
        )

clean_segments-IsStack : (xs segs : List Text) → IsStack xs → IsStack (clean_segments false xs segs)
unfolding clean_segments
clean_segments-IsStack xs [] h = h
clean_segments-IsStack xs (seg ∷ segs) h =
    clean_segments-IsStack (push_segment false xs seg) segs (push_segment-IsStack xs seg h)

All-reverse {ℓ κ} : {A : Type ℓ} (P : A → Type κ) (xs : List A) → All P xs → All P (reverse xs)
All-reverse P [] h = tt
All-reverse P (x ∷ xs) h =
    rw reverse-cons (All-append P (reverse xs) (x ∷ []) (All-reverse P xs h.1) (h.0, tt))

-- Read from the front, such a stack holds entries only, or begins with "..".
reverse-IsStack :
    (xs : List Text)
    → IsStack xs
    → All IsEntry (reverse xs) ⊎ ((rest : List Text) × (reverse xs ≡ dot_dot ∷ rest))
reverse-IsStack [] h = inl tt
reverse-IsStack (x ∷ []) (inl h) = inl (h.0, tt)
reverse-IsStack (x ∷ []) (inr h) = inr ([], ground (arith, h.0))
reverse-IsStack (x ∷ y ∷ xs) h = extend (reverse-IsStack (y ∷ xs) (IsStack-tail x (y ∷ xs) h)) h
  where
    extend :
        All IsEntry (reverse (y ∷ xs)) ⊎ ((rest : List Text) × (reverse (y ∷ xs) ≡ dot_dot ∷ rest))
        → IsStack (x ∷ y ∷ xs)
        → All IsEntry (reverse (x ∷ y ∷ xs))
          ⊎ ((rest : List Text) × (reverse (x ∷ y ∷ xs) ≡ dot_dot ∷ rest))
    extend (inr (rest, e)) k = inr (rest ++ x ∷ [], rw (reverse-cons, e))
    extend (inl es) (inl k) =
        inl (rw reverse-cons (All-append IsEntry (reverse (y ∷ xs)) (x ∷ []) es (k.0, tt)))
    extend (inl es) (inr k) =
        let entries : All IsEntry (y ∷ xs) =
          rw reverse-reverse at (All-reverse IsEntry (reverse (y ∷ xs)) es) in
        absurd (entries.0.not_dot_dot k.1.0)

-- The segments on the stack come from those that were read, or are "..".
push_segment-Lacks :
    (xs : List Text) (seg : Text)
    → All (Lacks slash) xs
    → Lacks slash seg
    → All (Lacks slash) (push_segment false xs seg)
push_segment-Lacks [] seg h k = ground arith
push_segment-Lacks (x ∷ xs) seg h k = ground arith

clean_segments-Lacks :
    (xs segs : List Text)
    → All (Lacks slash) xs
    → All (Lacks slash) segs
    → All (Lacks slash) (clean_segments false xs segs)
unfolding clean_segments
clean_segments-Lacks xs [] h k = h
clean_segments-Lacks xs (seg ∷ segs) h k =
    clean_segments-Lacks (push_segment false xs seg) segs (push_segment-Lacks xs seg h k.0) k.1

clean_body-eq : (body s : Text) → clean_body false body ≡ s → s ≢ dot → (body ≡ s) × (body ≢ [])
clean_body-eq [] s e h = absurd (h (sym e))
clean_body-eq (c ∷ body) s e h = (e, ground arith)

-- The segments of a relative path that is its own cleaning are entries, or the first is "..".
pub clean-split :
    (s : Text)
    → clean s ≡ s
    → is_abs s ≡ false
    → s ≢ dot
    → All IsEntry (split slash s) ⊎ ((rest : List Text) × (split slash s ≡ dot_dot ∷ rest))
unfolding clean join
clean-split s e relative h =
    rw same (reverse-IsStack stack (clean_segments-IsStack [] (split slash s) tt))
  where
    stack : List Text
    stack = clean_segments false [] (split slash s)

    cleaned : clean_body false (join slash (reverse stack)) ≡ s
    cleaned = rw relative at e

    body : (join slash (reverse stack) ≡ s) × (join slash (reverse stack) ≢ [])
    body = clean_body-eq (join slash (reverse stack)) s cleaned h

    filled : reverse stack ≢ []
    filled p = body.1 (ap (join slash) p)

    same : split slash s ≡ reverse stack
    same =
        ap (split slash) (sym body.0)
        ∙ split-join slash (reverse stack) filled (
            All-reverse (Lacks slash) stack
              (clean_segments-Lacks [] (split slash s) tt (split-Lacks slash s)))
