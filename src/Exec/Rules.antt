-- ===== src/Exec/Rules.antt =====
-- What a call returns, from what its first part returned.
use api_example.Prelude.{◌≡◌, refl, sym, ap, Bool, true, false}
use api_example.Errors.{Error}
use api_example.Exec.{Result, ok, err, Exec, Done, attempt, fail_if, ◌>>=◌}

module _ {W A B : Type 0} (m : Exec W A) (f : A → Exec W B) (w w' : W) where
  pub bind-ok : (a : A) → m w ≡ (ok a, w') → (m >>= f) w ≡ f a w'
  bind-ok a h =
      ap
        (λ (p : Result A × W). elim p.0 as (λ x. Result B × W) [
          | ok b ↦ f b p.1
          | err e ↦ (err e, p.1)
        ])
        h

  pub bind-err : (e : Error) → m w ≡ (err e, w') → (m >>= f) w ≡ (err e, w')
  bind-err e h =
      ap
        (λ (p : Result A × W). elim p.0 as (λ x. Result B × W) [
          | ok b ↦ f b p.1
          | err d ↦ (err d, p.1)
        ])
        h

module _ {W A B : Type 0} (m : Exec W A) (f : Result A → Exec W B) (w w' : W) where
  pub bind-attempt : (r : Result A) → m w ≡ (r, w') → (attempt m >>= f) w ≡ f r w'
  bind-attempt r h = ap (λ (p : Result A × W). f p.0 p.1) h

-- What the parts of a call that returned have returned.
pub bind-inverts :
    {W A B : Type 0} (m : Exec W A) (f : A → Exec W B) (w w' : W) (b : B)
    → (m >>= f) w ≡ (ok b, w')
    → (a : A) × (v : W) × (m w ≡ (ok a, v)) × (f a v ≡ (ok b, w'))
bind-inverts {W} {A} {B} m f w w' b = go (m w) refl
  where
    go :
        (p : Result A × W)
        → m w ≡ p
        → (elim p.0 as (λ x. Result B × W) [ ok a ↦ f a p.1 | err e ↦ (err e, p.1) ]) ≡ (ok b, w')
        → (a : A) × (v : W) × (m w ≡ (ok a, v)) × (f a v ≡ (ok b, w'))
    go (ok a, v) h k = (a, v, h, k)
    go (err x, v) h k = absurd cc

pub attempt-inverts :
    {W A : Type 0} (m : Exec W A) (r : Result A) (w w' : W)
    → attempt m w ≡ (ok r, w')
    → m w ≡ (r, w')
attempt-inverts {W} {A} m r w w' h = go (m w) h
  where
    go : (p : Result A × W) → ◌≡◌ {A = Result (Result A) × W} (ok p.0, p.1) (ok r, w') → p ≡ (r, w')
    go (x, v) k = cc

pub fail_if-inverts :
    {W : Type 0} (b : Bool) (e : Error) (t : Done) (w w' : W)
    → fail_if b e w ≡ (ok t, w')
    → (b ≡ false) × (w' ≡ w)
fail_if-inverts true e t w w' h = absurd cc
fail_if-inverts {W} false e t w w' h = (refl, sym (ap (λ (p : Result Done × W). p.1) h))

-- A call after which a predicate on the state holds that held before it, whatever it returns.
abbrev pub Preserves : {W A : Type 0} → (W → Type 0) → Exec W A → Type 0
Preserves P m = (w : _) → P w → P (m w).1

pub bind-Preserves :
    {W A B : Type 0} (P : W → Type 0) (m : Exec W A) (f : A → Exec W B)
    → Preserves P m
    → ((a : A) → Preserves P (f a))
    → Preserves P (m >>= f)
bind-Preserves {W} {A} {B} P m f pm pf w h = go (m w) (pm w h)
  where
    go :
        (p : Result A × W)
        → P p.1
        → P (elim p.0 as (λ x. Result B × W) [ ok a ↦ f a p.1 | err e ↦ (err e, p.1) ]).1
    go (ok a, v) k = pf a v k
    go (err e, v) k = k
