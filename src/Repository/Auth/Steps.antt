-- ===== src/Repository/Auth/Steps.antt =====
-- What a rotation that returned no error has done to the sessions, statement by statement.
use api_example.Prelude.{
  ℕ, ◌≤◌, ◌≡◌, refl, sym, ap, ◌∙◌, Bool, true, false, ◌&&◌, not, String, List, [], ◌∷◌, ◌++◌,
  Option, none, some, arith, ltb, ◌==◌, if◌then◌else◌, Bool-cases, inl, inr,
}
use api_example.Text.{Text, text}
use api_example.Errors.{Error, app, pg_error}
use api_example.Errors.Catalog.{err_auth_invalid_refresh}
use api_example.Exec.{Result, ok, err, Exec, Done, attempt, fail_if, ◌>>=◌, ◌>>◌}
use api_example.Exec.Rules.{bind-inverts, attempt-inverts, fail_if-inverts}
use api_example.Domain.{RefreshSession}
use api_example.Sql.{SessionRow, Database, statement, update, count, char_count}
use api_example.Sql.Auth
use api_example.Sql.Auth.{
  CreateRefreshSessionParams, can_rotate, has_token, set_rotated, rotate_session, write_rotation,
  session_violation, insert_session, new_session_row,
}
use api_example.Repository.Auth.{rotation, refresh_session_params, context_of}

-- What a statement that returned did, in the state that it met.
statement-ok :
    {A : Type 0} (run : Exec Database A) (d d' : Database) (a : A)
    → statement run d ≡ (ok a, d')
    → (fs : List (Option Error)) × (run (record d { faults = fs }) ≡ (ok a, d'))
statement-ok run d d' a = by_faults d.faults
  where
    by_faults :
        (fs : List (Option Error))
        → statement run (record d { faults = fs }) ≡ (ok a, d')
        → (gs : List (Option Error)) × (run (record d { faults = gs }) ≡ (ok a, d'))
    by_faults [] h = ([], h)
    by_faults (none ∷ rest) h = (rest, h)
    by_faults (some e ∷ rest) h = absurd cc

-- A rotated row cannot be rotated again.
pub count-rotated :
    (token replacement : Text) (now : ℕ) (rows : List SessionRow)
    → count
        (can_rotate token now)
        (update (can_rotate token now) (set_rotated replacement now) rows)
      ≡ 0
count-rotated token replacement now [] = refl
count-rotated token replacement now (s ∷ rows) = elim (Bool-cases (can_rotate token now s)) [
  | inl e ↦ rw e (ground (arith, count-rotated token replacement now rows))
  | inr e ↦ rw e (rw e (count-rotated token replacement now rows))
]

-- The token of a row that could be rotated is still there.
pub count-token :
    (token replacement : Text) (now : ℕ) (rows : List SessionRow)
    → count (can_rotate token now) rows
      ≤ count (has_token token) (update (can_rotate token now) (set_rotated replacement now) rows)
count-token token replacement now [] = omega arith
count-token token replacement now (s ∷ rows) =
    ground (arith, count-token token replacement now rows)

pub count-append :
    (p : SessionRow → Bool) (rows : List SessionRow) (s : SessionRow)
    → p s ≡ false
    → count p (rows ++ s ∷ []) ≡ count p rows
count-append p [] s h = ground (arith, h)
count-append p (r ∷ rows) s h = ground (arith, count-append p rows s h)

context-ok :
    {A : Type 0} (before : Text) (r : Result A) (a : A) (d d' : Database)
    → context_of before r d ≡ (ok a, d')
    → (r ≡ ok a) × (d' ≡ d)
context-ok {A} before (ok x) a d d' h =
    (ap (λ (p : Result A × Database). p.0) h, sym (ap (λ (p : Result A × Database). p.1) h))
context-ok before (err x) a d d' h = absurd cc

-- What the statements of a rotation that returned did.
pub record Rotated (old_token_id : Text) (replacement : RefreshSession) (d d' : Database)
    : Type 0 where
  pub rows : List SessionRow
  pub now : ℕ
  pub revoked :
      rows ≡ update (can_rotate old_token_id now) (set_rotated replacement.token_id now) d.sessions
  pub some_row : 1 ≤ count (can_rotate old_token_id now) d.sessions
  pub fresh : count (has_token replacement.token_id) rows ≡ 0
  pub new_row : SessionRow
  pub new_token : new_row.token_id ≡ replacement.token_id
  pub added : d'.sessions ≡ rows ++ new_row ∷ []
  pub same_now : d'.now ≡ now
  pub begun : now ≡ d.now

rotate_session-ok :
    (token replacement : Text) (d d' : Database) (n : ℕ)
    → rotate_session replacement token d ≡ (ok n, d')
    → (n ≡ count (can_rotate token d.now) d.sessions)
      × (d'.sessions ≡ update (can_rotate token d.now) (set_rotated replacement d.now) d.sessions)
      × (d'.now ≡ d.now)
unfolding rotate_session
rotate_session-ok token replacement d d' n h =
    let (fs, run) = statement-ok (write_rotation replacement token) d d' n h in
    by_test (ltb 64 (char_count replacement) && ltb 0 (count (can_rotate token d.now) d.sessions))
      fs run
  where
    body : Bool → List (Option Error) → Result ℕ × Database
    body b fs = if b then (err (pg_error "22001"), record d { faults = fs }) else (
      ok (count (can_rotate token d.now) d.sessions),
      record d {
        sessions = update (can_rotate token d.now) (set_rotated replacement d.now) d.sessions;
        faults = fs;
      },
    )

    by_test :
        (b : Bool) (fs : List (Option Error))
        → body b fs ≡ (ok n, d')
        → (n ≡ count (can_rotate token d.now) d.sessions)
          × (d'.sessions
              ≡ update (can_rotate token d.now) (set_rotated replacement d.now) d.sessions)
          × (d'.now ≡ d.now)
    by_test true fs k = absurd cc
    by_test false fs k =
        let same = sym (ap (λ (p : Result ℕ × Database). p.1) k) in
        (cc, ap (λ (e : Database). e.sessions) same, ap (λ (e : Database). e.now) same)

unused :
    (d : Database) (fs : List (Option Error)) (p : CreateRefreshSessionParams)
    → session_violation (record d { faults = fs }) p ≡ none
    → count (has_token p.token_id) d.sessions ≡ 0
unfolding session_violation
unused d fs p h = ground arith

create-ok :
    (p : CreateRefreshSessionParams) (d d' : Database) (t : Done)
    → Auth.create_refresh_session p d ≡ (ok t, d')
    → (s : SessionRow) × (s.token_id ≡ p.token_id)
      × (count (has_token p.token_id) d.sessions ≡ 0)
      × (d'.sessions ≡ d.sessions ++ s ∷ [])
      × (d'.now ≡ d.now)
unfolding Auth.create_refresh_session
create-ok p d d' t h =
    let (fs, run) = statement-ok (λ e. insert_session (session_violation e p) p e) d d' t h in
    by_violation (session_violation (record d { faults = fs }) p) fs refl run
  where
    by_violation :
        (v : Option String) (fs : List (Option Error))
        → session_violation (record d { faults = fs }) p ≡ v
        → insert_session v p (record d { faults = fs }) ≡ (ok t, d')
        → (s : SessionRow) × (s.token_id ≡ p.token_id)
          × (count (has_token p.token_id) d.sessions ≡ 0)
          × (d'.sessions ≡ d.sessions ++ s ∷ [])
          × (d'.now ≡ d.now)
    by_violation (some code) fs v k = absurd cc
    by_violation none fs v k =
        let same = sym (ap (λ (p : Result Done × Database). p.1) k) in
        (
          new_session_row d p,
          refl,
          unused d fs p v,
          ap (λ (e : Database). e.sessions) same,
          ap (λ (e : Database). e.now) same,
        )

-- The steps of a rotation after each of its statements.
abbrev finished : Result Done → Exec Database Done
finished created = context_of (text "create replacement refresh session: ") created

abbrev replaced : RefreshSession → ℕ → Exec Database Done
replaced replacement rows =
    fail_if (not (rows == 1)) (app err_auth_invalid_refresh)
    >> (attempt (Auth.create_refresh_session (refresh_session_params replacement)) >>= finished)

abbrev pub revoked_by : RefreshSession → Result ℕ → Exec Database Done
revoked_by replacement rotated =
    context_of (text "revoke refresh session: ") rotated >>= replaced replacement

pub rotation-ok :
    (old_token_id : Text) (replacement : RefreshSession) (d d' : Database) (t : Done)
    → rotation old_token_id replacement d ≡ (ok t, d')
    → Rotated old_token_id replacement d d'
rotation-ok old_token_id replacement d d' t h =
    let (rotated, d1, a1, k1) =
      bind-inverts (attempt (rotate_session replacement.token_id old_token_id))
        (revoked_by replacement) d d' t h in
    let (n, d2, a2, k2) =
      bind-inverts (context_of (text "revoke refresh session: ") rotated) (replaced replacement) d1
        d' t k1 in
    let (u, d3, a3, k3) =
      bind-inverts (fail_if (not (n == 1)) (app err_auth_invalid_refresh))
        (λ x.
          attempt (Auth.create_refresh_session (refresh_session_params replacement)) >>= finished)
        d2 d' t k2 in
    let (created, d4, a4, k4) =
      bind-inverts (attempt (Auth.create_refresh_session (refresh_session_params replacement)))
        finished d3 d' t k3 in
    let (same_rotated, same2) = context-ok (text "revoke refresh session: ") rotated n d1 d2 a2 in
    let (one, same3) = fail_if-inverts (not (n == 1)) (app err_auth_invalid_refresh) u d2 d3 a3 in
    let (same_created, same5) =
      context-ok (text "create replacement refresh session: ") created t d4 d' k4 in
    let (counted, updated, now1) = rotate_session-ok old_token_id replacement.token_id d d1 n (
      attempt-inverts (rotate_session replacement.token_id old_token_id) rotated d d1 a1
      ∙ ap (λ r. (r, d1)) same_rotated) in
    let (s, token, none_before, added, now4) =
      create-ok (refresh_session_params replacement) d3 d4 t (
        attempt-inverts (Auth.create_refresh_session (refresh_session_params replacement)) created
          d3 d4 a4
        ∙ ap (λ r. (r, d4)) same_created) in
    let back = same3 ∙ same2 in
    record {
      rows = d1.sessions;
      now = d.now;
      revoked = updated;
      some_row = ground (arith, one, counted);
      fresh = rw back at none_before;
      new_row = s;
      new_token = token;
      added =
          ap (λ (e : Database). e.sessions) same5
          ∙ added
          ∙ ap (λ (e : Database). e.sessions ++ s ∷ []) back;
      begun = refl;
      same_now =
          ap (λ (e : Database). e.now) same5 ∙ now4 ∙ ap (λ (e : Database). e.now) back ∙ now1;
    }
