-- ===== src/Tests/Schema.antt =====
-- A schema that is the list of the migrations that have changed it.
use api_example.Prelude.{◌≡◌, refl, true, Option, none, some, List, [], ◌∷◌, map}
use api_example.Prelude.Int.{pos}
use api_example.Prelude.Maps.{All}
use api_example.Text.{Text, text}
use api_example.Errors.{Error}
use api_example.Exec.{ok, err}
use api_example.Migrations.{
  Migratable, MigrationRow, Ledger, get_migrations, is_recorded, migrate_up,
}
use api_example.Migrations.Requests.{view}
use api_example.Migrations.Applied.{Applied, migrate_up-Applied}
use api_example.Migrations.Again.{migrate_up_again}
use api_example.Migrations.Arguments.{parse_cli_args, parse_down_steps}
use api_example.Migrations.Check.{validate_migrations}
use api_example.Migrations.Down.{migrate_down}
use api_example.Tests.Fixtures.{down}

abbrev migrations : List (Migratable (List Text))
migrations = get_migrations (λ name s. ok (name ∷ s)) (λ name s. ok s)

abbrev empty : List (Option Error) → Ledger (List Text)
empty faults = record { schema = []; rows = []; now = 3; faults = faults }

abbrev row_of : Text → MigrationRow
row_of name = record { migration_name = name; executed_at = 3 }

abbrev done : Ledger (List Text)
done = record {
  schema = text "03_create_documents" ∷ text "02_seed_roles" ∷ text "01_create_auth_schema" ∷ [];
  rows =
      row_of (text "01_create_auth_schema")
      ∷ row_of (text "02_seed_roles")
      ∷ row_of (text "03_create_documents")
      ∷ [];
  now = 3;
  faults = [];
}

up-works : migrate_up migrations (empty []) ≡ (ok tt, done)
unfolding migrate_up is_recorded text api_example.Text.text_eq
up-works = refl

-- The commit of the second migration fails.
abbrev tenth_fails : List (Option Error)
tenth_fails = none ∷ none ∷ none ∷ none ∷ none ∷ none ∷ none ∷ none ∷ none ∷ some down ∷ []

up-fails : migrate_up migrations (empty tenth_fails) ≡ (
  err down,
  record {
    schema = text "01_create_auth_schema" ∷ [];
    rows = row_of (text "01_create_auth_schema") ∷ [];
    now = 3;
    faults = [];
  },
)
unfolding migrate_up is_recorded text api_example.Text.text_eq
up-fails = refl

down-works : migrate_down (λ t. t) (λ a b. true) migrations 1 done ≡ (
  ok tt,
  record done { rows = row_of (text "01_create_auth_schema") ∷ row_of (text "02_seed_roles") ∷ [] },
)
unfolding migrate_down api_example.Migrations.Down.revert_all api_example.Text.text_eq text
down-works = refl

validates : validate_migrations (λ t. t) (map some migrations) ≡ none
unfolding api_example.Migrations.Check.validate_from text api_example.Text.text_eq
validates = refl

parses :
    parse_cli_args (text "migration" ∷ text "staging" ∷ text "down" ∷ text "2" ∷ [])
    ≡ ok (record { env_name = text "staging"; command = text "down"; args = text "2" ∷ [] })
unfolding parse_cli_args api_example.Text.text_eq text
parses = refl

steps : parse_down_steps (text "2" ∷ []) ≡ ok (pos 2)
unfolding parse_down_steps api_example.Text.Numeral.parse_int text
steps = refl

migrate_up-Applied_example :
    Applied migrations
      (view (empty tenth_fails))
      (migrate_up migrations (empty tenth_fails)).0
      (view (migrate_up migrations (empty tenth_fails)).1)
migrate_up-Applied_example = migrate_up-Applied migrations (empty tenth_fails)

migrate_up_again_example :
    All (λ m. is_recorded m.name done.rows ≡ true) migrations
    × (migrate_up migrations done ≡ (ok tt, done))
migrate_up_again_example = migrate_up_again migrations (empty []) done done up-works refl refl
