-- ===== src/Repository/Auth/Once.antt =====
-- A refresh session is rotated once.
use api_example.Prelude.{
  ◌≤◌, ◌≡◌, refl, sym, ap, ◌∙◌, false, List, [], ◌∷◌, Option, none, some, arith, Bool-cases, inl,
  inr,
}
use api_example.Text.{Text, text_eq, text_eq_iff}
use api_example.Errors.{Error, app}
use api_example.Errors.Catalog.{err_auth_invalid_refresh}
use api_example.Exec.Rules.{bind-attempt}
use api_example.Repository.Documents.Claims.{statement-quiet}
use api_example.Exec.{Result, ok, err, Done}
use api_example.Domain.{RefreshSession}
use api_example.Sql.{Database, update, count}
use api_example.Sql.Auth.{can_rotate, has_token, set_rotated, rotate_session, write_rotation}
use api_example.Repository.Auth.{
  closed, commit, started, rotation, rotate_refresh_session, connection,
}
use api_example.Repository.Auth.Steps.{
  Rotated, count-rotated, count-token, count-append, rotation-ok, revoked_by,
}

write_none :
    (token replacement : Text) (d : Database)
    → count (can_rotate token d.now) d.sessions ≡ 0
    → (e : Database) × (write_rotation replacement token d ≡ (ok 0, e))
write_none token replacement d h = (
  record d {
    sessions = update (can_rotate token d.now) (set_rotated replacement d.now) d.sessions;
  },
  ground (arith, h),
)

rotation-refused :
    (old_token_id : Text) (again : RefreshSession) (d : Database)
    → d.faults ≡ []
    → count (can_rotate old_token_id d.now) d.sessions ≡ 0
    → (e : Database) × (rotation old_token_id again d ≡ (err (app err_auth_invalid_refresh), e))
unfolding rotate_session
rotation-refused old_token_id again d f h =
    let (e, run) = write_none old_token_id again.token_id d h in
    (
      e,
      bind-attempt (rotate_session again.token_id old_token_id) (revoked_by again) d e (ok 0)
          (statement-quiet (write_rotation again.token_id old_token_id) d f ∙ run),
    )

second-refused :
    (old_token_id : Text) (again : RefreshSession) (d : Database)
    → d.faults ≡ []
    → count (can_rotate old_token_id d.now) d.sessions ≡ 0
    → (rotate_refresh_session old_token_id again d).0 ≡ err (app err_auth_invalid_refresh)
unfolding rotate_refresh_session
second-refused old_token_id again d f h =
    let (e, run) = rotation-refused old_token_id again d f h in
    ap (λ (p : Result Done × Database). p.0)
      (bind-attempt connection (started old_token_id again) d d (ok tt)
          (statement-quiet (λ x. (ok tt, x)) d f)
        ∙ ap (closed d) run)

Rotated-none :
    (old_token_id : Text) (replacement : RefreshSession) (d d' : Database)
    → Rotated old_token_id replacement d d'
    → count (can_rotate old_token_id d'.now) d'.sessions ≡ 0
Rotated-none old_token_id replacement d d' r =
    rw (r.same_now, r.added)
      (count-append (can_rotate old_token_id r.now) r.rows r.new_row other
        ∙ (rw r.revoked (count-rotated old_token_id replacement.token_id r.now d.sessions)))
  where
    still : 1 ≤ count (has_token old_token_id) r.rows
    still =
        rw r.revoked (
          omega (arith, r.some_row, count-token old_token_id replacement.token_id r.now d.sessions))

    apart : text_eq replacement.token_id old_token_id ≡ false
    apart = elim (Bool-cases (text_eq replacement.token_id old_token_id)) [
      | inl e ↦
          let same : replacement.token_id ≡ old_token_id =
            (text_eq_iff replacement.token_id old_token_id).0 e in
          absurd (omega (arith, still, rw same at r.fresh))
      | inr e ↦ e
    ]

    other : can_rotate old_token_id r.now r.new_row ≡ false
    other = rw r.new_token (rw apart refl)

commit-ok :
    (w d d' : Database) → commit w d ≡ (ok tt, d') → (d'.sessions ≡ d.sessions) × (d'.now ≡ d.now)
commit-ok w d d' = by_faults d.faults
  where
    by_faults :
        (fs : List (Option Error))
        → commit w (record d { faults = fs }) ≡ (ok tt, d')
        → (d'.sessions ≡ d.sessions) × (d'.now ≡ d.now)
    by_faults [] h =
        let same = sym (ap (λ (p : Result Done × Database). p.1) h) in rw same (refl, refl)
    by_faults (none ∷ rest) h =
        let same = sym (ap (λ (p : Result Done × Database). p.1) h) in rw same (refl, refl)
    by_faults (some e ∷ rest) h = absurd cc

closed-ok :
    (w d' : Database) (p : Result Done × Database)
    → closed w p ≡ (ok tt, d')
    → (e : Database) × (p ≡ (ok tt, e)) × ((d'.sessions ≡ e.sessions) × (d'.now ≡ e.now))
closed-ok w d' (ok x, e) k = (e, refl, commit-ok w e d' k)
closed-ok w d' (err x, e) k = absurd cc

-- A rotation that returned has rotated a row, and leaves none that can be rotated.
pub rotate_lem :
    (old_token_id : Text) (replacement : RefreshSession) (d d' : Database)
    → rotate_refresh_session old_token_id replacement d ≡ (ok tt, d')
    → (1 ≤ count (can_rotate old_token_id d.now) d.sessions)
      × (count (can_rotate old_token_id d'.now) d'.sessions ≡ 0)
unfolding rotate_refresh_session
rotate_lem old_token_id replacement d d' h = by_faults d.faults h
  where
    spent :
        (w : Database)
        → closed w (rotation old_token_id replacement w) ≡ (ok tt, d')
        → (1 ≤ count (can_rotate old_token_id w.now) w.sessions)
          × (count (can_rotate old_token_id d'.now) d'.sessions ≡ 0)
    spent w k =
        let (e, run, (sessions, now)) = closed-ok w d' (rotation old_token_id replacement w) k in
        let r = rotation-ok old_token_id replacement w e tt run in
        (rw r.begun at r.some_row, rw (sessions, now) (Rotated-none old_token_id replacement w e r))

    by_faults :
        (fs : List (Option Error))
        → rotate_refresh_session old_token_id replacement (record d { faults = fs }) ≡ (ok tt, d')
        → (1 ≤ count (can_rotate old_token_id d.now) d.sessions)
          × (count (can_rotate old_token_id d'.now) d'.sessions ≡ 0)
    by_faults [] k = spent (record d { faults = [] }) k
    by_faults (none ∷ rest) k = spent (record d { faults = rest }) k
    by_faults (some e ∷ rest) k = absurd cc

-- A refresh session is spent once: after a rotation that returned no error, another rotation of the
-- same token, to whatever replacement, is refused with ErrAuthInvalidRefresh if its statements do not
-- fail.
pub rotate_once :
    (old_token_id : Text) (replacement again : RefreshSession) (d d' : Database)
    → rotate_refresh_session old_token_id replacement d ≡ (ok tt, d')
    → d'.faults ≡ []
    → (rotate_refresh_session old_token_id again d').0 ≡ err (app err_auth_invalid_refresh)
rotate_once old_token_id replacement again d d' h f =
    second-refused old_token_id again d' f (rotate_lem old_token_id replacement d d' h).1
