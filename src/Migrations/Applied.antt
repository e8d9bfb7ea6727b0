-- ===== src/Migrations/Applied.antt =====
-- What a run of `migrateUp` does to the schema and to the table migrations.
use api_example.Prelude.{ℕ, ◌≡◌, refl, sym, ◌⊎◌, inl, inr, Bool, true, false, List, [], ◌∷◌, ◌++◌}
use mathlib.Core.Path.{subst}
use api_example.Errors.{Error}
use api_example.Exec.{Result, ok, err, Exec, Done}
use api_example.Exec.Rules.{bind-ok, bind-err}
use api_example.Migrations.{
  Migratable, MigrationRow, Ledger, is_recorded, request, in_transaction, apply, unless_executed,
  migrate_one, migrate_up,
}
use api_example.Migrations.Requests.{
  View, view, request-cases, in_transaction-IsAtomic, IsMoved, apply-IsMoved,
}

-- A run over a list of migrations, which ends with a result: each migration is passed over if it is
-- recorded, and else its change of the schema and its row come together. An error may end the run
-- between two migrations.
pub data Applied {S : Type 0} : List (Migratable S) → View S → Result Done → View S → Type 0 where
  finished : (v : View S) → Applied [] v (ok tt) v
  failed : (ms : List (Migratable S)) (v : View S) (e : Error) → Applied ms v (err e) v
  passed :
      (m : Migratable S) (ms : List (Migratable S)) (v v' : View S) (r : Result Done)
      → is_recorded m.name v.1 ≡ true
      → Applied ms v r v'
      → Applied (m ∷ ms) v r v'
  moved :
      (m : Migratable S) (ms : List (Migratable S)) (s s' : S) (rows : List MigrationRow) (now : ℕ)
      (v' : View S) (r : Result Done)
      → is_recorded m.name rows ≡ false
      → m.up s ≡ ok s'
      → Applied ms (s', rows ++ record { migration_name = m.name; executed_at = now } ∷ []) r v'
      → Applied (m ∷ ms) (s, rows) r v'

module _ {S : Type 0} where
  -- What one pass of the loop does: it fails and changes nothing, it passes a migration over that is
  -- recorded, or it moves one that is not.
  abbrev IsPassed : Migratable S → View S → Result Done × Ledger S → Type 0
  IsPassed m v p =
      ((e : Error) × (p.0 ≡ err e) × (view p.1 ≡ v))
      ⊎ (((is_recorded m.name v.1 ≡ true) × (p.0 ≡ ok tt) × (view p.1 ≡ v))
          ⊎ ((is_recorded m.name v.1 ≡ false) × (p.0 ≡ ok tt) × IsMoved m v (view p.1)))

  executed_of : Migratable S → Exec (Ledger S) Bool
  executed_of m d = (ok (is_recorded m.name d.rows), d)

  unless_executed-IsPassed :
      (m : Migratable S) (d : Ledger S) (executed : Bool)
      → is_recorded m.name d.rows ≡ executed
      → IsPassed m (view d) (unless_executed m executed d)
  unless_executed-IsPassed m d true e = inr (inl (e, refl, refl))
  unless_executed-IsPassed m d false e = elim (in_transaction-IsAtomic (apply m) d) [
    | inl (x, failed_, same) ↦ inl (x, failed_, same)
    | inr (before, after, same, now, ran, succeeded, kept) ↦ inr (
        inr (
          e,
          succeeded,
          subst (λ v. IsMoved m v (view (in_transaction (apply m) d).1)) same
              (subst (IsMoved m (view before)) (sym kept) (apply-IsMoved m before after ran)),
        ))
  ]

  migrate_one-IsPassed : (m : Migratable S) (d : Ledger S) → IsPassed m (view d) (migrate_one m d)
  migrate_one-IsPassed m d = elim (request-cases (λ e. (ok (is_recorded m.name e.rows), e)) d) [
    | inl (e, fs, failed_) ↦
        subst (IsPassed m (view d))
          (sym (
            bind-err (request (λ e. (ok (is_recorded m.name e.rows), e))) (unless_executed m) d
              (record d { faults = fs }) e failed_))
          (inl (e, refl, refl))
    | inr (fs, done) ↦
        subst (IsPassed m (view d))
          (sym (
            bind-ok (request (λ e. (ok (is_recorded m.name e.rows), e))) (unless_executed m) d
              (record d { faults = fs }) (is_recorded m.name d.rows) done))
          (unless_executed-IsPassed m (record d { faults = fs }) (is_recorded m.name d.rows) refl)
  ]

  -- Every run of `migrateUp`, however it ends, is made of whole migrations: at each end, also where a
  -- request or a commit fails, the changes of the schema are those of the migrations that have a row,
  -- in their order, and a migration that has a row is not run again.
  pub migrate_up-Applied :
      (ms : List (Migratable S)) (d : Ledger S)
      → Applied ms (view d) (migrate_up ms d).0 (view (migrate_up ms d).1)
  unfolding migrate_up
  migrate_up-Applied [] d = finished (view d)
  migrate_up-Applied (m ∷ ms) d =
      by_pass (migrate_one m d) (λ d1. migrate_up-Applied ms d1) (migrate_one-IsPassed m d)
    where
      by_pass :
          (p : Result Done × Ledger S)
          → ((d1 : Ledger S)
              → Applied ms (view d1) (migrate_up ms d1).0 (view (migrate_up ms d1).1))
          → IsPassed m (view d) p
          → (let q = elim p.0 as (λ x. Result Done × Ledger S) [
            | ok t ↦ migrate_up ms p.1
            | err e ↦ (err e, p.1)
          ] in
              Applied (m ∷ ms) (view d) q.0 (view q.1))
      by_pass (err e, d1) later (inl (x, failed_, same)) =
          subst (Applied (m ∷ ms) (view d) (err e)) (sym same) (failed (m ∷ ms) (view d) e)
      by_pass (err e, d1) later (inr (inl (recorded, succeeded, same))) = absurd cc
      by_pass (err e, d1) later (inr (inr (fresh, succeeded, change))) = absurd cc
      by_pass (ok t, d1) later (inl (x, failed_, same)) = absurd cc
      by_pass (ok t, d1) later (inr (inl (recorded, succeeded, same))) =
          passed m ms (view d) (view (migrate_up ms d1).1) (migrate_up ms d1).0 recorded (
            subst (λ v. Applied ms v (migrate_up ms d1).0 (view (migrate_up ms d1).1)) same
              (later d1))
      by_pass (ok t, d1) later (inr (inr (fresh, succeeded, (s', now, up, same)))) =
          moved m ms d.schema s' d.rows now (view (migrate_up ms d1).1) (migrate_up ms d1).0 fresh
            up
            (subst (λ v. Applied ms v (migrate_up ms d1).0 (view (migrate_up ms d1).1)) same
              (later d1))
