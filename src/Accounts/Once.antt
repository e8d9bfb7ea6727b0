-- ===== src/Accounts/Once.antt =====
-- A refresh token is good for one refresh, over the repository and its tables.
use api_example.Prelude.{ℕ, ◌+◌, ◌≡◌, refl, ap, ◌∙◌, ◌&&◌, Option, none, some, List, [], ◌∷◌, arith}
use api_example.Prelude.Int.{ℤ, int_eq}
use api_example.Text.{Text, trim_space}
use api_example.Errors.{Error, AppError}
use api_example.Errors.Catalog.{err_auth_user_not_found}
use api_example.Exec.{Result, ok, err, Exec, attempt, return, ◌>>=◌}
use api_example.Domain.{User, RefreshSession}
use api_example.Sql.{SessionRow, UserRow, Database, statement, count, select, is_null}
use api_example.Sql.Auth.{can_rotate, has_token, first_of}
use api_example.Repository.Auth
use api_example.Sql.Auth as Tables
use api_example.Repository.Auth.{
  session_or_mapped, user_or_mapped, auth_repository, rotate_refresh_session,
}
use api_example.Repository.Auth.Once.{rotate_lem}
use api_example.Tokens.{
  access, signed, identified, claims_for, validate, clock, TokenPair, Claims, TokenType,
  validate_refresh_token, generate_token_pair, sign, random_token_id,
}
use api_example.Tokens.Pairs.{IsTimeless, validate_same}
use api_example.Accounts.{AuthService, AuthResult, new_session, refresh, session_of}
use api_example.Accounts.Spent.{refresh-IsRefreshed}

-- What a refresh asks about: the sessions, and the clock of the database.
abbrev pub view : Database → List SessionRow × ℕ
view d = (d.sessions, d.now)

-- A call that leaves both as they are.
abbrev pub Keeps : {A : Type 0} → Exec Database A → Type 0
Keeps m = (d : Database) → view (m d).1 ≡ view d

Keeps-bind :
    {A B : Type 0} (m : Exec Database A) (f : A → Exec Database B)
    → Keeps m
    → ((a : A) → Keeps (f a))
    → Keeps (m >>= f)
Keeps-bind {A} {B} m f km kf d = go (m d) (km d)
  where
    go :
        (p : Result A × Database)
        → view p.1 ≡ view d
        → view (elim p.0 as (λ x. Result B × Database) [ ok a ↦ f a p.1 | err e ↦ (err e, p.1) ]).1
          ≡ view d
    go (ok a, e) h = kf a e ∙ h
    go (err x, e) h = h

Keeps-statement : {A : Type 0} (run : Database → Result A) → Keeps (statement (λ d. (run d, d)))
Keeps-statement {A} run d = by_faults d.faults
  where
    by_faults :
        (fs : List (Option Error))
        → view (statement (λ (e : Database). (run e, e)) (record d { faults = fs })).1 ≡ view d
    by_faults [] = refl
    by_faults (none ∷ rest) = refl
    by_faults (some e ∷ rest) = refl

Keeps-session_or_mapped : (r : Result SessionRow) → Keeps (session_or_mapped r)
Keeps-session_or_mapped (ok row) d = refl
Keeps-session_or_mapped (err e) d = refl

Keeps-user_or_mapped : (refusal : AppError) (r : Result UserRow) → Keeps (user_or_mapped refusal r)
Keeps-user_or_mapped refusal (ok row) d = refl
Keeps-user_or_mapped refusal (err e) d = refl

Keeps-read_session : (id : Text) → Keeps (Auth.get_refresh_session_by_token_id id)
unfolding Auth.get_refresh_session_by_token_id Tables.get_refresh_session_by_token_id
Keeps-read_session id =
    Keeps-bind (attempt (Tables.get_refresh_session_by_token_id id)) session_or_mapped
      (Keeps-statement (λ d. first_of (select (has_token id) d.sessions))) Keeps-session_or_mapped

Keeps-read_user : (id : ℤ) → Keeps (Auth.get_user_by_id id)
unfolding Auth.get_user_by_id Tables.get_user_by_id
Keeps-read_user id =
    Keeps-bind (attempt (Tables.get_user_by_id id)) (user_or_mapped err_auth_user_not_found)
      (Keeps-statement
        (λ d. first_of (select (λ (u : UserRow). int_eq u.id id && is_null u.deleted_at) d.users)))
      (Keeps-user_or_mapped err_auth_user_not_found)

-- Two rotations of one session in a row do not both return.
rotates_once :
    (id : Text) (first second : RefreshSession) (d v d' d'' : Database)
    → rotate_refresh_session id first d ≡ (ok tt, d')
    → rotate_refresh_session id second v ≡ (ok tt, d'')
    → view v ≡ view d'
    → ⊥
rotates_once id first second d v d' d'' h k kept =
    let none_left = (rotate_lem id first d d' h).1 in
    let some_row = (rotate_lem id second v d'' k).0 in
    let same = ap (λ (p : List SessionRow × ℕ). count (can_rotate id p.1) p.0) kept in
    omega (arith, none_left, some_row, same)

-- Drawing random bytes leaves the sessions and the clock as they are.
module _ (s : AuthService Database) (drawing : (n : ℕ) → Keeps (s.jwt.random n)) where
  Keeps-signed : (t : TokenType) (r : Result Text) → Keeps (signed s.jwt t r)
  Keeps-signed t (ok value) d = refl
  Keeps-signed t (err e) d = refl

  Keeps-sign :
      (user : User) (t : TokenType) (expires_at : ℕ) (id : Text)
      → Keeps (sign s.jwt user t expires_at id)
  unfolding sign
  Keeps-sign user t expires_at id d =
      Keeps-signed t
        (s.jwt.sign_hs256 s.jwt.secret (claims_for s.jwt user t expires_at id (s.jwt.now d))) d

  Keeps-identified : (r : Result (List ℕ)) → Keeps (identified s.jwt r)
  Keeps-identified (ok bytes) d = refl
  Keeps-identified (err e) d = refl

  Keeps-random_token_id : Keeps (random_token_id s.jwt)
  unfolding random_token_id
  Keeps-random_token_id =
      Keeps-bind (attempt (s.jwt.random 16)) (identified s.jwt) (drawing 16) Keeps-identified

  -- The steps of `GenerateTokenPair`, from the last one.
  abbrev pair_of : ℕ → Text → Text → Exec Database TokenPair
  pair_of now access_token refresh_token = return (record {
    access_token = access_token;
    refresh_token = refresh_token;
    expires_at = now + s.jwt.access_ttl;
  })

  abbrev with_id : User → ℕ → Text → Text → Exec Database TokenPair
  with_id user now access_token id =
      sign s.jwt user TokenType.refresh (now + s.jwt.refresh_ttl) id >>= pair_of now access_token

  abbrev with_access : User → ℕ → Text → Exec Database TokenPair
  with_access user now access_token = random_token_id s.jwt >>= with_id user now access_token

  abbrev at_time : User → ℕ → Exec Database TokenPair
  at_time user now = sign s.jwt user access (now + s.jwt.access_ttl) [] >>= with_access user now

  Keeps-generate_token_pair : (user : User) → Keeps (generate_token_pair s.jwt user)
  unfolding generate_token_pair
  Keeps-generate_token_pair user =
      Keeps-bind (clock s.jwt) (at_time user) (λ d. refl)
        λ now.
          Keeps-bind (sign s.jwt user access (now + s.jwt.access_ttl) []) (with_access user now)
            (Keeps-sign user access (now + s.jwt.access_ttl) [])
            λ access_token.
              Keeps-bind (random_token_id s.jwt) (with_id user now access_token)
                Keeps-random_token_id
                λ id.
                  Keeps-bind (sign s.jwt user TokenType.refresh (now + s.jwt.refresh_ttl) id)
                    (pair_of now access_token)
                    (Keeps-sign user TokenType.refresh (now + s.jwt.refresh_ttl) id) (λ r d. refl)

  abbrev with_pair : User → TokenPair → Exec Database (TokenPair × RefreshSession)
  with_pair user pair = validate_refresh_token s.jwt pair.refresh_token >>= session_of s user pair

  pub Keeps-new_session : (user : User) → Keeps (new_session s user)
  unfolding new_session validate
  Keeps-new_session user =
      Keeps-bind (generate_token_pair s.jwt user) (with_pair user) (Keeps-generate_token_pair user)
        λ pair.
          Keeps-bind (validate_refresh_token s.jwt pair.refresh_token) (session_of s user pair)
            (λ d. refl) (λ claims d. refl)

  module _ (lower : Text → Text) (stored : s.repository ≡ auth_repository lower)
      (timeless : IsTimeless s.jwt) where
    pub Keeps-session : (id : Text) → Keeps (s.repository.get_refresh_session_by_token_id id)
    Keeps-session id = rw stored (Keeps-read_session id)

    pub Keeps-user : (id : ℤ) → Keeps (s.repository.get_user_by_id id)
    Keeps-user id = rw stored (Keeps-read_user id)

    -- A refresh token is good for one refresh: once a refresh with it has returned a result, another
    -- one in the state that this has left returns none. The service is over the repository and its
    -- tables, whatever requests to the database fail; drawing random bytes leaves the sessions and the
    -- clock as they are; and the claims of a token do not depend on the time at which it is read.
    pub refresh_once :
        (token : Text) (d d' d'' : Database) (first second : AuthResult)
        → refresh s token d ≡ (ok first, d')
        → ¬ (refresh s token d' ≡ (ok second, d''))
    refresh_once token d d' d'' first second h k =
        let one =
          refresh-IsRefreshed s view Keeps-session Keeps-user Keeps-new_session token first d d'
            h in
        let two =
          refresh-IsRefreshed s view Keeps-session Keeps-user Keeps-new_session token second d' d''
            k in
        let same =
          ap (λ (c : Claims). c.id)
            (validate_same s.jwt (trim_space token) TokenType.refresh two.claims one.claims d' d' d
              d timeless two.valid one.valid) in
        rotates_once one.claims.id one.used.replacement two.used.replacement one.used.rotating
          two.used.rotating d' d'' (rw stored at one.used.rotated)
          (rw same at (rw stored at two.used.rotated)) (two.used.same_view ∙ two.same_view)
