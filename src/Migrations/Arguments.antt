-- ===== src/Migrations/Arguments.antt =====
-- The arguments of the command cmd/migration.
use api_example.Prelude.{Bool, Option, none, some, List, [], ◌∷◌, if◌then◌else◌}
use api_example.Prelude.Int.{ℤ, pos, leb_ℤ}
use api_example.Text.{Text, text}
use api_example.Text.Numeral.{parse_int}
use api_example.Errors.{plain}
use api_example.Exec.{Result, ok, err}
use api_example.Migrations.{contains_text}

-- `commands`
abbrev pub commands : List Text
commands =
    text "up" ∷ text "down" ∷ text "status" ∷ text "validate" ∷ text "dry-run" ∷ text "check" ∷ []

-- `isCommand`
abbrev pub is_command : Text → Bool
is_command value = contains_text value commands

-- What a command line names.
pub record Invocation : Type 0 where
  pub env_name : Text
  pub command : Text
  pub args : List Text

abbrev with_env : Text → Text → List Text → Result Invocation
with_env env command args =
    if is_command command
    then ok (record { env_name = env; command = command; args = args })
    else err (plain (text "unsupported migration command"))

abbrev after_first : Text → List Text → Result Invocation
after_first env [] = err (plain (text "unsupported migration command"))
after_first env (command ∷ args) = with_env env command args

-- `parseCLIArgs`, with the name of the program first.
unfoldable pub parse_cli_args : List Text → Result Invocation
parse_cli_args [] = err (plain (text "missing migration command"))
parse_cli_args (program ∷ []) = err (plain (text "missing migration command"))
parse_cli_args (program ∷ first ∷ args) =
    if is_command first
    then ok (record { env_name = []; command = first; args = args })
    else after_first first args

abbrev step_count : Option ℤ → Result ℤ
step_count none = err (plain (text "down steps must be a positive integer"))
step_count (some steps) =
    if leb_ℤ steps (pos 0)
    then err (plain (text "down steps must be a positive integer"))
    else ok steps

-- `parseDownSteps`
unfoldable pub parse_down_steps : List Text → Result ℤ
parse_down_steps [] = ok (pos 1)
parse_down_steps (steps ∷ []) = step_count (parse_int steps)
parse_down_steps (a ∷ b ∷ args) = err (plain (text "down accepts one step count"))
