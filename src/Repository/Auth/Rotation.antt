-- ===== src/Repository/Auth/Rotation.antt =====
-- The rotation of a refresh session is one transaction.
use api_example.Prelude.{
  ◌≡◌, refl, sym, ap, List, [], ◌∷◌, Option, none, some, Bool, true, false, ◌∙◌, ◌⊎◌, inl, inr,
  if◌then◌else◌,
}
use api_example.Text.{Text}
use api_example.Errors.{Error}
use api_example.Exec.{Result, ok, err, Done}
use api_example.Domain.{RefreshSession}
use api_example.Sql.{Database}
use api_example.Repository.Auth.Steps.{Rotated, rotation-ok}
use api_example.Repository.Auth.{
  closed, commit, rollback, taken_effect, rotation, rotate_refresh_session,
}

abbrev pub SameTables : Database → Database → Type 0
SameTables d d' =
    (d'.sessions ≡ d.sessions)
    × (d'.now ≡ d.now)
    × (d'.users ≡ d.users)
    × (d'.documents ≡ d.documents)

commit-err :
    (w d d' : Database) (e : Error) → commit w d ≡ (err e, d') → SameTables w d' ⊎ SameTables d d'
commit-err w d d' e = by_faults d.faults
  where
    by_effect :
        (b : Bool) (fs : List (Option Error)) (x : Error)
        → ◌≡◌ {A = Result Done × Database}
            (err x, if b then record d { faults = fs } else rollback w (record d { faults = fs }))
            (err e, d')
        → SameTables w d' ⊎ SameTables d d'
    by_effect true fs x h =
        let same = sym (ap (λ (p : Result Done × Database). p.1) h) in
        inr (rw same (refl, refl, refl, refl))
    by_effect false fs x h =
        let same = sym (ap (λ (p : Result Done × Database). p.1) h) in
        inl (rw same (refl, refl, refl, refl))

    by_faults :
        (fs : List (Option Error))
        → commit w (record d { faults = fs }) ≡ (err e, d')
        → SameTables w d' ⊎ SameTables d d'
    by_faults [] h = absurd cc
    by_faults (none ∷ rest) h = absurd cc
    by_faults (some x ∷ rest) h = by_effect (taken_effect rest) rest x h

module _ (old_token_id : Text) (replacement : RefreshSession) where
  abbrev Outcome : Database → Database → Type 0
  Outcome d d' = SameTables d d' ⊎ Rotated old_token_id replacement d d'

  -- The steps concern nothing but the sessions and the time.
  relocated :
      (w w2 d d2 : Database)
      → (w2.sessions ≡ w.sessions) × (w2.now ≡ w.now)
      → (d2.sessions ≡ d.sessions) × (d2.now ≡ d.now)
      → Rotated old_token_id replacement w d
      → Rotated old_token_id replacement w2 d2
  relocated w w2 d d2 before after r = record {
    rows = r.rows;
    now = r.now;
    revoked = rw before.0 r.revoked;
    some_row = rw before.0 r.some_row;
    fresh = r.fresh;
    new_row = r.new_row;
    new_token = r.new_token;
    added = after.0 ∙ r.added;
    same_now = after.1 ∙ r.same_now;
    begun = r.begun ∙ sym before.1;
  }

  closed-err :
      (w d' : Database) (e : Error) (p : Result Done × Database)
      → rotation old_token_id replacement w ≡ p
      → closed w p ≡ (err e, d')
      → Outcome w d'
  closed-err w d' e (err x, after) run h =
      let same = sym (ap (λ (p : Result Done × Database). p.1) h) in
      inl (rw same (refl, refl, refl, refl))
  closed-err w d' e (ok x, after) run h = elim (commit-err w after d' e h) [
    | inl same ↦ inl same
    | inr same ↦ inr (
        relocated w w after d' (refl, refl) (same.0, same.1)
          (rotation-ok old_token_id replacement w after x run))
  ]

  -- A rotation that returns an error has done nothing or all, wherever it failed, at a Commit too that
  -- may or may not have taken effect: the sessions, the users, the documents and the time are as they
  -- were; or each step of the rotation was done: the usable sessions of the old token, of which there
  -- is one at least, were marked as revoked and replaced, and then a session of the replacement's token,
  -- which no other had, was added.
  pub rotate_refresh_session-atomic :
      (d d' : Database) (e : Error)
      → rotate_refresh_session old_token_id replacement d ≡ (err e, d')
      → SameTables d d' ⊎ Rotated old_token_id replacement d d'
  unfolding rotate_refresh_session
  rotate_refresh_session-atomic d d' e = by_faults d.faults
    where
      rolled :
          (fs : List (Option Error))
          → closed
              (record d { faults = fs })
              (rotation old_token_id replacement (record d { faults = fs }))
            ≡ (err e, d')
          → Outcome d d'
      rolled fs h =
          let w = record d { faults = fs } in
          elim (closed-err w d' e (rotation old_token_id replacement w) refl h) [
            | inl same ↦ inl same
            | inr r ↦ inr (relocated w d d' d' (refl, refl) (refl, refl) r)
          ]

      by_faults :
          (fs : List (Option Error))
          → rotate_refresh_session old_token_id replacement (record d { faults = fs }) ≡ (err e, d')
          → Outcome d d'
      by_faults [] h = rolled [] h
      by_faults (none ∷ rest) h = rolled rest h
      by_faults (some x ∷ rest) h =
          let same = sym (ap (λ (p : Result Done × Database). p.1) h) in
          inl (rw same (refl, refl, refl, refl))
