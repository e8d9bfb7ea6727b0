-- ===== src/Migrations/Status.antt =====
-- `migrationStates` of cmd/migration/main.go.
use api_example.Prelude.{String, Bool, true, false, List, [], ◌∷◌, ◌++◌, map, if◌then◌else◌}
use api_example.Text.{Text, text, text_eq}
use api_example.Errors.{plain}
use api_example.Exec.{Result, ok, err, Exec, from_result, ◌>>=◌}
use api_example.Migrations.{Migratable, MigrationRow, Ledger, contains_text, request}

-- `migrationState`
pub record MigrationState : Type 0 where
  pub name : Text
  pub status : String

abbrev without : Text → List Text → List Text
without name [] = []
without name (t ∷ ts) = let rest = without name ts in if text_eq t name then rest else t ∷ rest

abbrev all_known : List MigrationState × List Text → Result (List MigrationState)
all_known (states, []) = ok states
all_known (states, name ∷ names) =
    err (plain (text "unregistered migration records: " ++ (name ++ rest_of names)))
  where
    rest_of : List Text → Text
    rest_of [] = []
    rest_of (t ∷ ts) = text ", " ++ (t ++ rest_of ts)

module _ {S : Type 0} where
  abbrev one_state : Migratable S → Bool → MigrationState
  one_state m true = record { name = m.name; status = "EXECUTED" }
  one_state m false = record { name = m.name; status = "PENDING" }

  -- The loop of `migrationStates`, with the names that are still to be accounted for.
  unfoldable pub states_of : List (Migratable S) → List Text → List MigrationState × List Text
  states_of [] executed = ([], executed)
  states_of (m ∷ ms) executed =
      let (states, unknown) = states_of ms (without m.name executed) in
      (one_state m (contains_text m.name executed) ∷ states, unknown)

  -- `migrationStates`; the unknown names come in the order of a Go map, which may be any.
  unfoldable pub migration_states : List (Migratable S) → Exec (Ledger S) (List MigrationState)
  unfolding states_of
  migration_states ms = do
    names ← request (λ d. (ok (map (λ (r : MigrationRow). r.migration_name) d.rows), d))
    from_result (all_known (states_of ms names))
