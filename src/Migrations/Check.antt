-- ===== src/Migrations/Check.antt =====
-- `ValidateMigrations` of migrations/list/migratable.go.
use api_example.Prelude.{
  ℕ, suc, Bool, true, false, ◌&&◌, ◌||◌, Option, none, some, List, [], ◌∷◌, ◌++◌, leb, ◌==◌,
}
use api_example.Text.{Text, text}
use api_example.Text.Decimal.{format_nat}
use api_example.Text.Numeral.{is_digit}
use api_example.Errors.{Error, plain}
use api_example.Migrations.{Migratable, contains_text}

-- [a-z0-9_]
abbrev is_name_byte : ℕ → Bool
is_name_byte c = (leb b'a' c && leb c b'z') || is_digit c || c == b'_'

abbrev all_name_bytes : Text → Bool
all_name_bytes [] = true
all_name_bytes (c ∷ s) = is_name_byte c && all_name_bytes s

-- `migrationNamePattern`: ^[0-9]{2}_[a-z0-9_]+$
unfoldable pub matches_name : Text → Bool
matches_name (a ∷ b ∷ c ∷ d ∷ s) =
    is_digit a && is_digit b && c == b'_' && is_name_byte d && all_name_bytes s
matches_name _ = false

abbrev after_name : (Text → Text) → Bool → Bool → Text → Option Error → Option Error
after_name quote false duplicate name rest =
    some (plain (text "invalid migration name " ++ quote name))
after_name quote true true name rest = some (plain (text "duplicate migration " ++ quote name))
after_name quote true false name rest = rest

module _ {S : Type 0} (quote : Text → Text) where
  -- The loop of `ValidateMigrations`, with the index and the names seen.
  unfoldable pub validate_from : ℕ → List Text → List (Option (Migratable S)) → Option Error
  unfolding matches_name
  validate_from index seen [] = none
  validate_from index seen (none ∷ ms) =
      some (plain (text "migration " ++ (format_nat (suc index) ++ text " is nil")))
  validate_from index seen (some m ∷ ms) =
      after_name quote (matches_name m.name) (contains_text m.name seen) m.name
        (validate_from (suc index) (m.name ∷ seen) ms)

  -- `ValidateMigrations`
  abbrev pub validate_migrations : List (Option (Migratable S)) → Option Error
  validate_migrations = validate_from 0 []
