-- ===== src/Config/Readers.antt =====
-- `envBool`, `envInt`, `envInt64` and `envDuration`: what a value is that they return.
use api_example.Prelude.{
  ◌≡◌, refl, sym, ap, ◌∙◌, Bool, true, false, Option, none, some, ◌⊎◌, inl, inr, arith, ◌++◌,
  if◌then◌else◌,
}
use mathlib.Core.Path.{subst}
use api_example.Prelude.Int.{ℤ, pos, ◌≤ℤ◌, leb_ℤ}
use api_example.Text.{Text, text, is_empty, trim_space}
use api_example.Text.Numeral.{parse_int}
use api_example.Errors.{plain}
use api_example.Exec.{Result, ok, err, Exec, return, fail, ◌>>=◌}
use api_example.Exec.Rules.{bind-inverts}
use api_example.Config.{Environ, Libraries}
use api_example.Config.Load.{env_bool, env_int, env_duration, a_bool, an_int, a_duration}

-- The value of a variable, without the white space around it, and the one to use if it is blank.
abbrev pub IsReadAs : {A : Type 0} → (Text → A → Type 0) → Environ → Text → A → A → Type 0
IsReadAs Parses e key fallback value =
    ((is_empty (trim_space (e key)) ≡ true) × (value ≡ fallback))
    ⊎ ((is_empty (trim_space (e key)) ≡ false) × Parses (trim_space (e key)) value)

abbrev pub IntText : Text → ℤ → Type 0
IntText t n = parse_int t ≡ some n

-- What was returned is what was to be returned.
pub ok_value : {A : Type 0} {a b : A} → ◌≡◌ {A = Result A} (ok a) (ok b) → a ≡ b
ok_value h = cc

module _ (lib : Libraries) where
  abbrev pub BoolText : Text → Bool → Type 0
  BoolText t b = lib.parse_bool t ≡ ok b

  abbrev pub DurationText : Text → ℤ → Type 0
  DurationText t d = (lib.parse_duration t ≡ some d) × (pos 1 ≤ℤ d)

  -- A reader of the environment that returns leaves it, and its value is as said.
  abbrev Reads : {A : Type 0} → (Environ → A → Type 0) → Exec Environ A → Type 0
  Reads {A} P m = (e e' : Environ) (a : A) → m e ≡ (ok a, e') → P e a × (e' ≡ e)

  blank_or :
      {A : Type 0} (P : Text → A → Type 0) (e e' : Environ) (key : Text) (fallback a : A)
      (parsed : Result A × Environ)
      → (parsed ≡ (ok a, e') → P (trim_space (e key)) a × (e' ≡ e))
      → (if is_empty (trim_space (e key)) then (ok fallback, e) else parsed) ≡ (ok a, e')
      → IsReadAs P e key fallback a × (e' ≡ e)
  blank_or {A} P e e' key fallback a parsed is = by_blank (is_empty (trim_space (e key))) refl
    where
      by_blank :
          (b : Bool)
          → is_empty (trim_space (e key)) ≡ b
          → (if b then (ok fallback, e) else parsed) ≡ (ok a, e')
          → IsReadAs P e key fallback a × (e' ≡ e)
      by_blank true blank h = (
        inl (blank, ok_value (ap (λ (p : Result A × Environ). p.0) (sym h))),
        ap (λ (p : Result A × Environ). p.1) (sym h),
      )
      by_blank false filled h = let (parses, same) = is h in (inr (filled, parses), same)

  parsed_bool :
      (key t : Text) (e e' : Environ) (b : Bool) (r : Result Bool)
      → lib.parse_bool t ≡ r
      → a_bool key r e ≡ (ok b, e')
      → BoolText t b × (e' ≡ e)
  parsed_bool key t e e' b (ok c) parses h = (cc, cc)
  parsed_bool key t e e' b (err x) parses h = absurd cc

  parsed_int :
      (key t : Text) (e e' : Environ) (n : ℤ) (o : Option ℤ)
      → parse_int t ≡ o
      → an_int lib key t o e ≡ (ok n, e')
      → IntText t n × (e' ≡ e)
  parsed_int key t e e' n (some m) parses h = (cc, cc)
  parsed_int key t e e' n none parses h = absurd cc

  parsed_duration :
      (key t : Text) (e e' : Environ) (d : ℤ) (o : Option ℤ)
      → lib.parse_duration t ≡ o
      → a_duration key o e ≡ (ok d, e')
      → DurationText t d × (e' ≡ e)
  parsed_duration key t e e' d (some m) parses h = by_sign (leb_ℤ m (pos 0)) refl h
    where
      by_sign :
          (b : Bool)
          → leb_ℤ m (pos 0) ≡ b
          → (if b then fail (plain (key ++ text " must be a positive duration")) else return m) e
            ≡ (ok d, e')
          → DurationText t d × (e' ≡ e)
      by_sign true low h = absurd cc
      by_sign false positive h =
          let same : m ≡ d = cc in
          ((parses ∙ ap (λ n. some n) same, subst (λ n. pos 1 ≤ℤ n) same (ground arith)), cc)
  parsed_duration key t e e' d none parses h = absurd cc

  env_bool-Reads :
      (key : Text) (fallback : Bool)
      → Reads (λ e. IsReadAs BoolText e key fallback) (env_bool lib key fallback)
  unfolding env_bool
  env_bool-Reads key fallback e e' b =
      let t = trim_space (e key) in
      blank_or BoolText e e' key fallback b (a_bool key (lib.parse_bool t) e)
        (parsed_bool key t e e' b (lib.parse_bool t) refl)

  env_int-Reads :
      (key : Text) (fallback : ℤ)
      → Reads (λ e. IsReadAs IntText e key fallback) (env_int lib key fallback)
  unfolding env_int
  env_int-Reads key fallback e e' n =
      let t = trim_space (e key) in
      blank_or IntText e e' key fallback n (an_int lib key t (parse_int t) e)
        (parsed_int key t e e' n (parse_int t) refl)

  env_duration-Reads :
      (key : Text) (fallback : ℤ)
      → Reads (λ e. IsReadAs DurationText e key fallback) (env_duration lib key fallback)
  unfolding env_duration
  env_duration-Reads key fallback e e' d =
      let t = trim_space (e key) in
      blank_or DurationText e e' key fallback d (a_duration key (lib.parse_duration t) e)
        (parsed_duration key t e e' d (lib.parse_duration t) refl)

  -- The rest of a chain of readers starts from the same environment.
  after :
      {A B : Type 0} (P : Environ → A → Type 0) (m : Exec Environ A) (f : A → Exec Environ B)
      (e e' : Environ) (b : B)
      → Reads P m
      → (m >>= f) e ≡ (ok b, e')
      → (a : A) × P e a × (f a e ≡ (ok b, e'))
  after P m f e e' b reads h =
      let (a, w, run, rest) = bind-inverts m f e e' b h in
      let (is, same) = reads e w a run in (a, is, ap (f a) (sym same) ∙ rest)

  pub then_bool :
      {B : Type 0} (key : Text) (fallback : Bool) (f : Bool → Exec Environ B) (e e' : Environ)
      (b : B)
      → (env_bool lib key fallback >>= f) e ≡ (ok b, e')
      → (a : Bool) × IsReadAs BoolText e key fallback a × (f a e ≡ (ok b, e'))
  then_bool key fallback f e e' b =
      after (λ w. IsReadAs BoolText w key fallback) (env_bool lib key fallback) f e e' b
        (env_bool-Reads key fallback)

  pub then_int :
      {B : Type 0} (key : Text) (fallback : ℤ) (f : ℤ → Exec Environ B) (e e' : Environ) (b : B)
      → (env_int lib key fallback >>= f) e ≡ (ok b, e')
      → (a : ℤ) × IsReadAs IntText e key fallback a × (f a e ≡ (ok b, e'))
  then_int key fallback f e e' b =
      after (λ w. IsReadAs IntText w key fallback) (env_int lib key fallback) f e e' b
        (env_int-Reads key fallback)

  pub then_duration :
      {B : Type 0} (key : Text) (fallback : ℤ) (f : ℤ → Exec Environ B) (e e' : Environ) (b : B)
      → (env_duration lib key fallback >>= f) e ≡ (ok b, e')
      → (a : ℤ) × IsReadAs DurationText e key fallback a × (f a e ≡ (ok b, e'))
  then_duration key fallback f e e' b =
      after (λ w. IsReadAs DurationText w key fallback) (env_duration lib key fallback) f e e' b
        (env_duration-Reads key fallback)
