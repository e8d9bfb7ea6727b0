-- ===== src/Migrations/Again.antt =====
-- A run of `migrateUp` after one that has succeeded.
use mathlib.Core.Path.{subst}
use api_example.Prelude.{ℕ, ◌≡◌, refl, sym, ap, ◌∙◌, true, List, [], ◌∷◌, ◌++◌, arith}
use api_example.Prelude.Maps.{All}
use api_example.Text.{Text, text_eq_iff}
use api_example.Exec.{Result, ok, Done}
use api_example.Exec.Rules.{bind-ok}
use api_example.Migrations.{
  Migratable, MigrationRow, Ledger, is_recorded, request, unless_executed, migrate_one, migrate_up,
}
use api_example.Migrations.Requests.{View, view}
use api_example.Migrations.Applied.{Applied, finished, failed, passed, moved, migrate_up-Applied}

is_recorded-append :
    (name : Text) (rows : List MigrationRow) (r : MigrationRow)
    → is_recorded name rows ≡ true
    → is_recorded name (rows ++ r ∷ []) ≡ true
unfolding is_recorded
is_recorded-append name [] r h = absurd cc
is_recorded-append name (x ∷ rows) r h = ground (arith, is_recorded-append name rows r)

is_recorded_last :
    (name : Text) (rows : List MigrationRow) (now : ℕ)
    → is_recorded name (rows ++ record { migration_name = name; executed_at = now } ∷ []) ≡ true
unfolding is_recorded
is_recorded_last name [] now = rw ((text_eq_iff name name).1 refl)
is_recorded_last name (x ∷ rows) now = ground (arith, is_recorded_last name rows now)

module _ {S : Type 0} where
  -- Rows stay.
  Applied-keeps :
      (name : Text) (ms : List (Migratable S)) (v v' : View S) (r : Result Done)
      → Applied ms v r v'
      → is_recorded name v.1 ≡ true
      → is_recorded name v'.1 ≡ true
  Applied-keeps name _ _ _ _ (finished v) h = h
  Applied-keeps name _ _ _ _ (failed ms v e) h = h
  Applied-keeps name _ _ _ _ (passed m ms v v' r known rest) h = Applied-keeps name ms v v' r rest h
  Applied-keeps name _ _ _ _ (moved m ms s s' rows now v' r fresh up rest) h =
      Applied-keeps name ms (s', rows ++ record { migration_name = m.name; executed_at = now } ∷ [])
        v' r rest
        (is_recorded-append name rows (record { migration_name = m.name; executed_at = now }) h)

  abbrev IsRecorded : View S → Migratable S → Type 0
  IsRecorded v m = is_recorded m.name v.1 ≡ true

  -- After a run that succeeds every migration has its row.
  Applied-records :
      (ms : List (Migratable S)) (v v' : View S) (r : Result Done)
      → Applied ms v r v'
      → r ≡ ok tt
      → All (IsRecorded v') ms
  Applied-records _ _ _ _ (finished v) e = tt
  Applied-records _ _ _ _ (failed ms v x) e = absurd cc
  Applied-records _ _ _ _ (passed m ms v v' r known rest) e =
      (Applied-keeps m.name ms v v' r rest known, Applied-records ms v v' r rest e)
  Applied-records _ _ _ _ (moved m ms s s' rows now v' r fresh up rest) e = (
    Applied-keeps m.name ms (s', rows ++ record { migration_name = m.name; executed_at = now } ∷ [])
        v' r rest (is_recorded_last m.name rows now),
    Applied-records ms (s', rows ++ record { migration_name = m.name; executed_at = now } ∷ []) v' r
        rest e,
  )

  migrate_one-passes :
      (m : Migratable S) (d : Ledger S)
      → d.faults ≡ []
      → is_recorded m.name d.rows ≡ true
      → migrate_one m d ≡ (ok tt, d)
  migrate_one-passes m d calm known =
      bind-ok (request (λ e. (ok (is_recorded m.name e.rows), e))) (unless_executed m) d d
        (is_recorded m.name d.rows) (rw calm)
      ∙ ap (λ b. unless_executed m b d) known

  passes :
      (ms : List (Migratable S)) (d : Ledger S)
      → d.faults ≡ []
      → All (IsRecorded (view d)) ms
      → migrate_up ms d ≡ (ok tt, d)
  unfolding migrate_up
  passes [] d calm known = refl
  passes (m ∷ ms) d calm known =
      bind-ok (migrate_one m) (λ x. migrate_up ms) d d tt (migrate_one-passes m d calm known.0)
      ∙ passes ms d calm known.1

  -- Once a run of `migrateUp` has succeeded, every migration is recorded, and a further run in a
  -- database with the same rows, in which no request fails, succeeds and changes nothing.
  pub migrate_up_again :
      (ms : List (Migratable S)) (d d' v : Ledger S)
      → migrate_up ms d ≡ (ok tt, d')
      → v.rows ≡ d'.rows
      → v.faults ≡ []
      → All (λ m. is_recorded m.name d'.rows ≡ true) ms × (migrate_up ms v ≡ (ok tt, v))
  migrate_up_again ms d d' v h same calm =
      let recorded : All (IsRecorded (view d')) ms =
        subst (λ (p : Result Done × Ledger S). All (IsRecorded (view p.1)) ms) h
          (Applied-records ms (view d) (view (migrate_up ms d).1) (migrate_up ms d).0
            (migrate_up-Applied ms d) (ap (λ (p : Result Done × Ledger S). p.0) h)) in
      (
        recorded,
        passes ms v calm
            (subst (λ rows. All (λ m. is_recorded m.name rows ≡ true) ms) (sym same) recorded),
      )
