-- ===== src/Migrations/Requests.antt =====
-- What the requests and the transactions of a run do.
use api_example.Prelude.{
  ℕ, ◌≡◌, refl, sym, ap, ◌∙◌, ◌⊎◌, inl, inr, Option, none, some, List, [], ◌∷◌, ◌++◌, String,
}
use api_example.Text.{Text, text}
use api_example.Errors.{Error, wrapped}
use api_example.Exec.{Result, ok, err, Exec, Done}
use api_example.Exec.Rules.{bind-inverts}
use api_example.Migrations.{
  Migratable, MigrationRow, Ledger, row_violation, request, undone, committed, ended,
  in_transaction, changed, change_schema, labelled, inserted, insert_row, apply,
}

-- The schema and the recorded migrations.
abbrev pub View : Type 0 → Type 0
View S = S × List MigrationRow

abbrev pub view : {S : Type 0} → Ledger S → View S
view d = (d.schema, d.rows)

module _ {S : Type 0} where
  -- A request fails and changes nothing, or it is done, with a shorter schedule.
  pub request-cases :
      {A : Type 0} (run : Exec (Ledger S) A) (d : Ledger S)
      → ((e : Error) × (fs : List (Option Error)) × (request run d
            ≡ (err e, record d { faults = fs })))
        ⊎ ((fs : List (Option Error)) × (request run d ≡ run (record d { faults = fs })))
  request-cases run d = by_faults d.faults
    where
      by_faults :
          (faults : List (Option Error))
          → ((e : Error) × (fs : List (Option Error)) × (request run (record d { faults = faults })
                ≡ (err e, record d { faults = fs })))
            ⊎ ((fs : List (Option Error)) × (request run (record d { faults = faults })
                  ≡ run (record d { faults = fs })))
      by_faults [] = inr ([], refl)
      by_faults (none ∷ rest) = inr (rest, refl)
      by_faults (some e ∷ rest) = inl (e, rest, refl)

  -- What a transaction has done: nothing, with an error, or what its statements did.
  abbrev pub IsAtomic : Exec (Ledger S) Done → Ledger S → Result Done × Ledger S → Type 0
  IsAtomic body d p =
      ((e : Error) × (p.0 ≡ err e) × (view p.1 ≡ view d))
      ⊎ ((before after : Ledger S) × (view before ≡ view d)
          × (before.now ≡ d.now)
          × (body before ≡ (ok tt, after))
          × (p.0 ≡ ok tt)
          × (view p.1 ≡ view after))

  -- A request that changes nothing when it is done.
  nothing-keeps :
      {A : Type 0} (a : Ledger S → A) (d : Ledger S)
      → (view (request (λ e. (ok (a e), e)) d).1 ≡ view d)
        × ((request (λ e. (ok (a e), e)) d).1.now ≡ d.now)
  nothing-keeps {A} a d = by_faults d.faults
    where
      by_faults :
          (faults : List (Option Error))
          → (view (request {A = A} (λ e. (ok (a e), e)) (record d { faults = faults })).1 ≡ view d)
            × ((request {A = A} (λ e. (ok (a e), e)) (record d { faults = faults })).1.now ≡ d.now)
      by_faults [] = (refl, refl)
      by_faults (none ∷ rest) = (refl, refl)
      by_faults (some e ∷ rest) = (refl, refl)

  pub in_transaction-IsAtomic :
      (body : Exec (Ledger S) Done) (d : Ledger S) → IsAtomic body d (in_transaction body d)
  in_transaction-IsAtomic body d =
      let (same, now) = nothing-keeps (λ e. tt) d in by_begin (request (λ e. (ok tt, e)) d) same now
    where
      by_commit :
          (d1 d2 : Ledger S) (q : Result Done × Ledger S)
          → view d1 ≡ view d
          → d1.now ≡ d.now
          → body d1 ≡ (ok tt, d2)
          → view q.1 ≡ view d2
          → IsAtomic body d (committed d1 q)
      by_commit d1 d2 (ok t, after) same now ran kept = inr (d1, d2, same, now, ran, refl, kept)
      by_commit d1 d2 (err e, after) same now ran kept = inl (e, refl, same)

      by_body :
          (d1 : Ledger S) (q : Result Done × Ledger S)
          → view d1 ≡ view d
          → d1.now ≡ d.now
          → body d1 ≡ q
          → IsAtomic body d (ended d1 q)
      by_body d1 (ok t, d2) same now ran =
          by_commit d1 d2 (request (λ e. (ok tt, e)) d2) same now ran (nothing-keeps (λ e. tt) d2).0
      by_body d1 (err e, d2) same now ran =
          inl (e, refl, (nothing-keeps (λ x. tt) (undone d1 d2)).0 ∙ same)

      by_begin :
          (q : Result Done × Ledger S)
          → view q.1 ≡ view d
          → q.1.now ≡ d.now
          → IsAtomic body d (elim q.0 as (λ x. Result Done × Ledger S) [
            | ok t ↦ ended q.1 (body q.1)
            | err e ↦ (err e, q.1)
          ])
      by_begin (ok t, d1) same now = by_body d1 (body d1) same now refl
      by_begin (err e, d1) same now = inl (e, refl, same)

  -- A migration whose statements all ran has changed the schema and has its row.
  abbrev pub IsMoved : Migratable S → View S → View S → Type 0
  IsMoved m v v' =
      (s' : S) × (now : ℕ) × (m.up v.0 ≡ ok s')
      × (v' ≡ (s', v.1 ++ record { migration_name = m.name; executed_at = now } ∷ []))

  ok_err :
      {d d' : Ledger S} {e : Error} → ◌≡◌ {A = Result Done × Ledger S} (ok tt, d') (err e, d) → ⊥
  ok_err h = cc

  change_schema-ok :
      (change : S → Result S) (d d' : Ledger S)
      → change_schema change d ≡ (ok tt, d')
      → (s' : S) × (change d.schema ≡ ok s') × (view d' ≡ (s', d.rows))
  change_schema-ok change d d' h =
      elim (request-cases (λ e. changed change e (change e.schema)) d) [
        | inl (e, fs, failed_) ↦ absurd (ok_err (sym h ∙ failed_))
        | inr (fs, done) ↦ by_change fs (change d.schema) refl (sym done ∙ h)
      ]
    where
      by_change :
          (fs : List (Option Error)) (r : Result S)
          → change d.schema ≡ r
          → changed change (record d { faults = fs }) r ≡ (ok tt, d')
          → (s' : S) × (change d.schema ≡ ok s') × (view d' ≡ (s', d.rows))
      by_change fs (ok s') e k = (s', e, sym (ap (λ (p : Result Done × Ledger S). view p.1) k))
      by_change fs (err x) e k = absurd cc

  labelled-ok :
      (label : Text) (m : Exec (Ledger S) Done) (d d' : Ledger S)
      → labelled label m d ≡ (ok tt, d')
      → m d ≡ (ok tt, d')
  labelled-ok label m d d' h = by_result (m d) h
    where
      by_result :
          (p : Result Done × Ledger S)
          → (elim p.0 as (λ x. Result Done × Ledger S) [
            | ok t ↦ (ok tt, p.1)
            | err e ↦ (err (wrapped label e []), p.1)
          ])
            ≡ (ok tt, d')
          → p ≡ (ok tt, d')
      by_result (ok t, d1) k = k
      by_result (err e, d1) k = absurd cc

  insert_row-ok :
      (name : Text) (d d' : Ledger S)
      → insert_row name d ≡ (ok tt, d')
      → view d' ≡ (d.schema, d.rows ++ record { migration_name = name; executed_at = d.now } ∷ [])
  insert_row-ok name d d' h =
      elim (request-cases (λ e. inserted name e (row_violation name e.rows)) d) [
        | inl (e, fs, failed_) ↦ absurd (ok_err (sym h ∙ failed_))
        | inr (fs, done) ↦ by_violation fs (row_violation name d.rows) (sym done ∙ h)
      ]
    where
      by_violation :
          (fs : List (Option Error)) (o : Option String)
          → inserted name (record d { faults = fs }) o ≡ (ok tt, d')
          → view d'
            ≡ (d.schema, d.rows ++ record { migration_name = name; executed_at = d.now } ∷ [])
      by_violation fs none k = sym (ap (λ (p : Result Done × Ledger S). view p.1) k)
      by_violation fs (some code) k = absurd cc

  pub apply-IsMoved :
      (m : Migratable S) (d d' : Ledger S) → apply m d ≡ (ok tt, d') → IsMoved m (view d) (view d')
  apply-IsMoved m d d' h =
      let label = text "apply " ++ (m.name ++ text ": ") in
      let (t, d1, changed_, rest) =
        bind-inverts (labelled (text "apply " ++ (m.name ++ text ": ")) (change_schema m.up))
          (λ x. insert_row m.name) d d' tt h in
      let (s', up, there) =
        change_schema-ok m.up d d1 (
          labelled-ok (text "apply " ++ (m.name ++ text ": ")) (change_schema m.up) d d1
            changed_) in
      (
        s',
        d1.now,
        up,
        insert_row-ok m.name d1 d' rest
            ∙ ap
                (λ (v : View S).
                  (v.0, v.1 ++ record { migration_name = m.name; executed_at = d1.now } ∷ []))
                there,
      )
