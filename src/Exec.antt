-- ===== src/Exec.antt =====
-- Calls that change a state `W` and may return an error. What was written before the error stays
-- written, so the state comes back beside the error too.
pub mod Rules
use api_example.Prelude.{Bool, true, false, Option, none, some}
use api_example.Errors.{Error}

pub data Result {ℓ} (A : Type ℓ) : Type ℓ where
  ok : A → Result A
  err : Error → Result A

abbrev pub Exec : Type 0 → Type 0 → Type 0
Exec W A = W → Result A × W

abbrev pub Done : Type 0
Done = Unit

module _ {W A : Type 0} where
  abbrev pub return : A → Exec W A
  return a w = (ok a, w)

  abbrev pub fail : Error → Exec W A
  fail e w = (err e, w)

  -- `if err := …; err != nil`: the call's result, for a caller that looks at the error itself.
  abbrev pub attempt : Exec W A → Exec W (Result A)
  attempt m w = let (r, w') = m w in (ok r, w')

  -- A call that returns no error of its own.
  abbrev pub call : (W → A × W) → Exec W A
  call m w = let (a, w') = m w in (ok a, w')

  abbrev pub from_result : Result A → Exec W A
  from_result r w = (r, w)

infixl 5 ◌>>=◌ ◌>>◌
abbrev pub ◌>>=◌ : {W A B : Type 0} → Exec W A → (A → Exec W B) → Exec W B
◌>>=◌ m f w = let (r, w') = m w in elim r [ ok a ↦ f a w' | err e ↦ (err e, w') ]

abbrev pub ◌>>◌ : {W A B : Type 0} → Exec W A → Exec W B → Exec W B
m >> k = m >>= λ _. k

-- `if b { return e }`
abbrev pub fail_if : {W : Type 0} → Bool → Error → Exec W Done
fail_if true e w = (err e, w)
fail_if false e w = (ok tt, w)
