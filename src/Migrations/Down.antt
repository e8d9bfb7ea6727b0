-- ===== src/Migrations/Down.antt =====
-- `migrateDown` of cmd/migration/main.go.
use api_example.Prelude.{
  ℕ, Bool, ◌&&◌, ◌||◌, Option, none, some, List, [], ◌∷◌, ◌++◌, map, if◌then◌else◌, ltb, ◌==◌, take,
}
use api_example.Text.{Text, text, text_eq}
use api_example.Errors.{plain}
use api_example.Exec.{ok, Exec, Done, return, fail, ◌>>=◌, ◌>>◌}
use api_example.Migrations.{
  Migratable, MigrationRow, Ledger, delete_row, request, in_transaction, change_schema, labelled,
}

-- The names that the database collates; `collates_after` is its order.
module _ (collates_after : Text → Text → Bool) where
  abbrev is_later : MigrationRow → MigrationRow → Bool
  is_later a b =
      ltb b.executed_at a.executed_at
      || (b.executed_at == a.executed_at && collates_after a.migration_name b.migration_name)

  abbrev insert_by_time : MigrationRow → List MigrationRow → List MigrationRow
  insert_by_time r [] = r ∷ []
  insert_by_time r (q ∷ rows) =
      let rest = insert_by_time r rows in if is_later q r then q ∷ rest else r ∷ q ∷ rows

  -- ORDER BY executed_at DESC, migration_name DESC
  abbrev pub latest_first : List MigrationRow → List MigrationRow
  latest_first [] = []
  latest_first (r ∷ rows) = insert_by_time r (latest_first rows)

module _ {S : Type 0} (quote : Text → Text) where
  -- `byName[name]`: the last migration of the name.
  unfoldable pub by_name : Text → List (Migratable S) → Option (Migratable S)
  by_name name [] = none
  by_name name (m ∷ ms) = elim (by_name name ms) [
    | some k ↦ some k
    | none ↦ if text_eq m.name name then some m else none
  ]

  abbrev pub revert : Migratable S → Text → Exec (Ledger S) Done
  revert m name =
      labelled (text "rollback " ++ (name ++ text ": ")) (change_schema m.down)
      >> request (λ d. (ok tt, record d { rows = delete_row name d.rows }))

  abbrev pub revert_found : Text → Option (Migratable S) → Exec (Ledger S) Done
  revert_found name none =
      fail (plain (text "recorded migration " ++ (quote name ++ text " is not registered")))
  revert_found name (some m) = in_transaction (revert m name)

  -- The loop of `migrateDown`.
  unfoldable pub revert_all : List (Migratable S) → List Text → Exec (Ledger S) Done
  unfolding by_name
  revert_all ms [] = return tt
  revert_all ms (name ∷ names) = revert_found name (by_name name ms) >> revert_all ms names

  -- `migrateDown`
  unfoldable pub migrate_down :
      (Text → Text → Bool) → List (Migratable S) → ℕ → Exec (Ledger S) Done
  migrate_down collates_after ms steps = do
    names ← request (λ d. (
      ok (
          map (λ (r : MigrationRow). r.migration_name)
            (take steps (latest_first collates_after d.rows))),
      d,
    ))
    revert_all ms names
