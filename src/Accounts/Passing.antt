-- ===== src/Accounts/Passing.antt =====
-- Who gets tokens.
use api_example.Prelude.{◌≡◌, sym, ap, ◌∙◌, Bool, true, not, ◌||◌, none, [], arith}
use api_example.Text.{Text}
use api_example.Errors.{Error, AppError, app, is_app}
use api_example.Errors.Catalog.{err_auth_invalid_credentials, err_auth_user_not_found}
use api_example.Exec.{Result, ok, err, Exec, Done, attempt, fail_if, ◌>>=◌, ◌>>◌}
use api_example.Exec.Rules.{bind-inverts, attempt-inverts, fail_if-inverts}
use api_example.Domain.{User}
use api_example.Tokens.{TokenPair}
use api_example.Validator
use api_example.Accounts.{
  AuthService, AuthResult, Credentials, public_user, is_closed, new_session, issue_and_persist,
  persisted, login, or_refused, unless_app,
}

-- A user whose account is open, who showed the password, and what it got.
pub record IsLoggedIn {W : Type 0} (s : AuthService W) (input : Credentials) (w : W)
    (result : AuthResult) : Type 0 where
  pub email : Text
  pub user : User
  pub later : W
  pub normal : Validator.email s.mail input.email ≡ ok email
  pub found : s.repository.get_user_by_email email w ≡ (ok user, later)
  pub active : user.is_active ≡ true
  pub kept : user.deleted_at ≡ none
  pub matched : s.passwords.verify user.password_hash input.password ≡ true
  pub shown : result.user ≡ record user { password_hash = [] }

pub ok_eq : {A : Type 0} {a b : A} → ◌≡◌ {A = Result A} (ok a) (ok b) → a ≡ b
ok_eq h = cc

module _ {W : Type 0} (s : AuthService W) where
  pub or_refused-ok :
      {A : Type 0} (refusal : AppError) (r : Result A) (a : A) (w w' : W)
      → or_refused s refusal r w ≡ (ok a, w')
      → (r ≡ ok a) × (w' ≡ w)
  or_refused-ok {A} refusal (ok b) a w w' h =
      (ap (λ (p : Result A × W). p.0) h, sym (ap (λ (p : Result A × W). p.1) h))
  or_refused-ok refusal (err e) a w w' h = absurd cc

  pub unless_app-ok :
      {A : Type 0} (named : Error → Bool) (refusal : AppError) (r : Result A) (a : A) (w w' : W)
      → unless_app s named refusal r w ≡ (ok a, w')
      → (r ≡ ok a) × (w' ≡ w)
  unless_app-ok {A} named refusal (ok b) a w w' h =
      (ap (λ (p : Result A × W). p.0) h, sym (ap (λ (p : Result A × W). p.1) h))
  unless_app-ok named refusal (err e) a w w' h = absurd cc

  issue_and_persist-ok :
      (user : User) (result : AuthResult) (w w' : W)
      → issue_and_persist s user w ≡ (ok result, w')
      → result.user ≡ public_user user
  unfolding issue_and_persist
  issue_and_persist-ok user result w w' h =
      let (issued, w1, _, k1) =
        bind-inverts (new_session s user)
          (λ i. attempt (s.repository.create_refresh_session i.1) >>= persisted s user i.0) w w'
          result h in
      let (stored, w2, _, k2) =
        bind-inverts (attempt (s.repository.create_refresh_session issued.1))
          (persisted s user issued.0) w1 w' result k1 in
      by_result issued.0 w2 stored k2
    where
      by_result :
          (pair : TokenPair) (v : W) (stored : Result Done)
          → persisted s user pair stored v ≡ (ok result, w')
          → result.user ≡ public_user user
      by_result pair v (ok d) k =
          sym (ap (λ (r : AuthResult). r.user) (ok_eq (ap (λ (p : Result AuthResult × W). p.0) k)))
      by_result pair v (err e) k = absurd cc

  -- The steps of `Login` after the address, the search and the match.
  abbrev admitted : Credentials → User → Exec W AuthResult
  admitted input user =
      fail_if (is_closed user || not (s.passwords.verify user.password_hash input.password))
        (app err_auth_invalid_credentials)
      >> issue_and_persist s user

  abbrev searched : Credentials → Result User → Exec W AuthResult
  searched input found =
      unless_app s (λ e. is_app e err_auth_user_not_found) err_auth_invalid_credentials found
      >>= admitted input

  abbrev addressed : Credentials → Text → Exec W AuthResult
  addressed input email = attempt (s.repository.get_user_by_email email) >>= searched input

  -- Whoever logs in has shown the password of the account whose address is the one given, in its
  -- normal form; the account is active and not deleted; and the user that is returned is that of the
  -- account, without the hash of the password.
  pub login-IsLoggedIn :
      (input : Credentials) (result : AuthResult) (w w' : W)
      → login s input w ≡ (ok result, w')
      → IsLoggedIn s input w result
  unfolding login public_user
  login-IsLoggedIn input result w w' h =
      let normal = Validator.email s.mail input.email in
      let (email, w1, a1, k1) =
        bind-inverts (or_refused s err_auth_invalid_credentials normal) (addressed input) w w'
          result h in
      let (found, w2, a2, k2) =
        bind-inverts (attempt (s.repository.get_user_by_email email)) (searched input) w1 w' result
          k1 in
      let (user, w3, a3, k3) =
        bind-inverts
          (unless_app s (λ e. is_app e err_auth_user_not_found) err_auth_invalid_credentials found)
          (admitted input) w2 w' result k2 in
      let (t, w4, a4, k4) =
        bind-inverts
          (fail_if (is_closed user || not (s.passwords.verify user.password_hash input.password))
            (app err_auth_invalid_credentials))
          (λ x. issue_and_persist s user) w3 w' result k3 in
      let (is_normal, same1) = or_refused-ok err_auth_invalid_credentials normal email w w1 a1 in
      let (is_found, same3) =
        unless_app-ok (λ e. is_app e err_auth_user_not_found) err_auth_invalid_credentials found
          user w2 w3 a3 in
      let (passes, same4) =
        fail_if-inverts
          (is_closed user || not (s.passwords.verify user.password_hash input.password))
          (app err_auth_invalid_credentials) t w3 w4 a4 in
      let read = attempt-inverts (s.repository.get_user_by_email email) found w1 w2 a2 in
      record {
        email = email;
        user = user;
        later = w2;
        normal = is_normal;
        found =
            ap (s.repository.get_user_by_email email) (sym same1)
            ∙ read
            ∙ ap (λ r. (r, w2)) is_found;
        active = ground (arith, passes);
        kept = ground (arith, passes);
        matched = ground (arith, passes);
        shown = issue_and_persist-ok user result w4 w' k4;
      }
