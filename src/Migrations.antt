-- ===== src/Migrations.antt =====
-- cmd/migration/main.go and migrations/list: the runs of the migrations over the table migrations.
pub mod Applied
pub mod Arguments
pub mod Check
pub mod Down
pub mod Status
pub mod Again
pub mod Requests
pub mod Run
use api_example.Prelude.{
  ℕ, ◌+◌, ◌≡◌, Bool, true, false, ◌&&◌, ◌||◌, not, Option, none, some, List, [], ◌∷◌, ◌++◌,
  if◌then◌else◌, leb, ltb, ◌==◌, length, String,
}
use api_example.Text.{Text, text, text_eq}
use api_example.Errors.{Error, plain, wrapped, pg_error}
use api_example.Exec.{Result, ok, err, Exec, Done, return, fail, ◌>>=◌, ◌>>◌}

abbrev pub contains_text : Text → List Text → Bool
contains_text t [] = false
contains_text t (u ∷ us) = text_eq u t || contains_text t us

-- `Migratable`, with what its statements make of a schema `S`.
pub record Migratable (S : Type 0) : Type 0 where
  pub name : Text
  pub up : S → Result S
  pub down : S → Result S

-- `GetMigrations`; the statements of each migration are known by its name.
abbrev pub get_migrations :
    {S : Type 0} → (Text → S → Result S) → (Text → S → Result S) → List (Migratable S)
get_migrations up down =
    record {
      name = text "01_create_auth_schema";
      up = up (text "01_create_auth_schema");
      down = down (text "01_create_auth_schema");
    }
    -- SeedRoles.Down runs no statement
    ∷ record { name = text "02_seed_roles"; up = up (text "02_seed_roles"); down = ok }
    ∷ record {
      name = text "03_create_documents";
      up = up (text "03_create_documents");
      down = down (text "03_create_documents");
    }
    ∷ []

-- A row of the table migrations.
pub record MigrationRow : Type 0 where
  pub migration_name : Text
  pub executed_at : ℕ

-- The database: the schema, the table migrations in the order of insertion, the time that NOW() gives,
-- and for each request to come whether it fails.
pub record Ledger (S : Type 0) : Type 0 where
  pub schema : S
  pub rows : List MigrationRow
  pub now : ℕ
  pub faults : List (Option Error)

-- EXISTS(SELECT 1 FROM migrations WHERE migration_name = $1)
unfoldable pub is_recorded : Text → List MigrationRow → Bool
is_recorded name [] = false
is_recorded name (r ∷ rows) = text_eq r.migration_name name || is_recorded name rows

-- The SQLSTATE code of the constraint that a new row breaks: the name is the primary key, of at most
-- 255 characters, which are ASCII in a valid name.
abbrev pub row_violation : Text → List MigrationRow → Option String
row_violation name rows =
    if ltb 255 (length name)
    then some "22001"
    else if is_recorded name rows
    then some "23505"
    else none

-- DELETE FROM migrations WHERE migration_name = $1
abbrev pub delete_row : Text → List MigrationRow → List MigrationRow
delete_row name [] = []
delete_row name (r ∷ rows) =
    let rest = delete_row name rows in if text_eq r.migration_name name then rest else r ∷ rest

module _ {S : Type 0} where
  -- One request to the database: it fails as scheduled and changes nothing, or it is done.
  abbrev pub request : {A : Type 0} → Exec (Ledger S) A → Exec (Ledger S) A
  request run d = elim d.faults [
    | [] ↦ run d
    | none ∷ rest ↦ run (record d { faults = rest })
    | some e ∷ rest ↦ (err e, record d { faults = rest })
  ]

  abbrev nothing : Exec (Ledger S) Done
  nothing = return tt

  -- What a transaction leaves that failed: the rest of the schedule.
  abbrev pub undone : Ledger S → Ledger S → Ledger S
  undone before after = record before { faults = after.faults }

  abbrev committed : Ledger S → Result Done × Ledger S → Result Done × Ledger S
  committed before (ok d, after) = (ok tt, after)
  committed before (err e, after) = (err e, undone before after)

  -- The end of a transaction: Commit, or Rollback, whose own error is dropped.
  abbrev pub ended : Ledger S → Result Done × Ledger S → Result Done × Ledger S
  ended before (ok d, after) = committed before (request nothing after)
  ended before (err e, after) = (err e, (request nothing (undone before after)).1)

  -- Begin, the statements, and the end.
  abbrev pub in_transaction : Exec (Ledger S) Done → Exec (Ledger S) Done
  in_transaction body = request nothing >> (λ d. ended d (body d))

  abbrev changed : (S → Result S) → Ledger S → Result S → Result Done × Ledger S
  changed change d (ok s) = (ok tt, record d { schema = s })
  changed change d (err e) = (err e, d)

  -- The statements of a migration.
  abbrev pub change_schema : (S → Result S) → Exec (Ledger S) Done
  change_schema change = request λ d. changed change d (change d.schema)

  abbrev pub labelled : Text → Exec (Ledger S) Done → Exec (Ledger S) Done
  labelled label m d =
      let (r, d') = m d in elim r [ ok t ↦ (ok tt, d') | err e ↦ (err (wrapped label e []), d') ]

  abbrev pub inserted : Text → Ledger S → Option String → Result Done × Ledger S
  inserted name d (some code) = (err (pg_error code), d)
  inserted name d none = (
    ok tt,
    record d { rows = d.rows ++ record { migration_name = name; executed_at = d.now } ∷ [] },
  )

  -- INSERT INTO migrations (migration_name) VALUES ($1)
  abbrev pub insert_row : Text → Exec (Ledger S) Done
  insert_row name = request λ d. inserted name d (row_violation name d.rows)

  abbrev pub apply : Migratable S → Exec (Ledger S) Done
  apply m =
      labelled (text "apply " ++ (m.name ++ text ": ")) (change_schema m.up) >> insert_row m.name

  abbrev pub unless_executed : Migratable S → Bool → Exec (Ledger S) Done
  unless_executed m true = return tt
  unless_executed m false = in_transaction (apply m)

  -- One pass of the loop of `migrateUp`.
  abbrev pub migrate_one : Migratable S → Exec (Ledger S) Done
  migrate_one m = request (λ d. (ok (is_recorded m.name d.rows), d)) >>= unless_executed m

  -- `migrateUp`
  unfoldable pub migrate_up : List (Migratable S) → Exec (Ledger S) Done
  migrate_up [] = return tt
  migrate_up (m ∷ ms) = migrate_one m >> migrate_up ms
