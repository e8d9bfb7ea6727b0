-- ===== src/Migrations/Run.antt =====
-- `run` of cmd/migration/main.go, from the connected pool on: what each command does. The environment
-- file, the configuration and the pool are made before.
use api_example.Prelude.{ℕ, Bool, ◌||◌, Option, none, some, List, [], ◌++◌, if◌then◌else◌, map}
use api_example.Prelude.Int.{ℤ, pos, negsuc}
use api_example.Text.{Text, text, text_eq}
use api_example.Errors.{Error, plain}
use api_example.Exec.{Result, ok, err, Exec, Done, return, fail, from_result, ◌>>=◌, ◌>>◌}
use api_example.Migrations.{Migratable, Ledger, request, labelled, migrate_up}
use api_example.Migrations.Arguments.{Invocation, parse_cli_args, parse_down_steps}
use api_example.Migrations.Check.{validate_migrations}
use api_example.Migrations.Down.{migrate_down}
use api_example.Migrations.Status.{MigrationState, migration_states}

abbrev to_count : ℤ → ℕ
to_count (pos n) = n
to_count (negsuc n) = 0

module _ {S : Type 0} (quote : Text → Text) (collates_after : Text → Text → Bool)
    (ms : List (Migratable S)) where
  abbrev ping : Exec (Ledger S) Done
  ping = request (return tt)

  abbrev no_states : Done → Exec (Ledger S) (List MigrationState)
  no_states d = return []

  abbrev run_down : List Text → Exec (Ledger S) (List MigrationState)
  run_down args = do
    steps ← from_result (parse_down_steps args)
    done ← migrate_down quote collates_after ms (to_count steps)
    no_states done

  -- The command, with the states that it logs.
  abbrev run_command : Text → List Text → Exec (Ledger S) (List MigrationState)
  run_command command args =
      if text_eq command (text "up")
      then migrate_up ms >>= no_states
      else if text_eq command (text "down")
      then run_down args
      else if text_eq command (text "status") || text_eq command (text "dry-run")
      then migration_states ms
      else if text_eq command (text "check")
      then ping >>= no_states
      else fail (plain (text "unsupported command " ++ quote command))

  -- The statements of CREATE TABLE IF NOT EXISTS migrations come before the command.
  abbrev connected : Invocation → Exec (Ledger S) (List MigrationState)
  connected i = labelled (text "ping PostgreSQL: ") ping >> (ping >> run_command i.command i.args)

  abbrev validated : Invocation → Option Error → Exec (Ledger S) (List MigrationState)
  validated i (some e) = fail e
  validated i none = if text_eq i.command (text "validate") then return [] else connected i

  abbrev parsed : Result Invocation → Exec (Ledger S) (List MigrationState)
  parsed (err e) = fail e
  parsed (ok i) = validated i (validate_migrations quote (map some ms))

  -- `run`
  unfoldable pub run : List Text → Exec (Ledger S) (List MigrationState)
  run argv = parsed (parse_cli_args argv)
