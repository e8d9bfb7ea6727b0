-- ===== src/Accounts/Spent.antt =====
-- What a refresh asks for, and what it uses up.
use api_example.Prelude.{ℕ, suc, ◌≤◌, ◌≡◌, sym, ap, ◌∙◌, Bool, true, false, ◌||◌, none, [], arith}
use mathlib.Core.Path.{subst}
use api_example.Prelude.Int.{ℤ}
use api_example.Text.{Text, text_eq_iff, trim_space}
use api_example.Text.Hex.{hex}
use api_example.Errors.{Error, app, is_app}
use api_example.Errors.Catalog.{err_auth_user_not_found, err_auth_invalid_refresh}
use api_example.Exec.{Result, ok, Exec, attempt, return, fail_if, ◌>>=◌, ◌>>◌}
use api_example.Exec.Rules.{bind-inverts, attempt-inverts, fail_if-inverts}
use api_example.Domain.{User, RefreshSession}
use api_example.Tokens.{TokenPair, Claims, validate, validate_refresh_token, clock}
use api_example.Accounts.{
  AuthService, AuthResult, public_user, is_closed, is_unusable, new_session, hash_refresh_token,
  refresh, or_refused, unless_app,
}
use api_example.Accounts.Passing.{or_refused-ok, unless_app-ok, ok_eq}

-- What a refresh has checked and done from the session on. `view` is a part of the state.
pub record IsUsed {W V : Type 0} (s : AuthService W) (view : W → V) (token id : Text)
    (session : RefreshSession) (now : ℕ) (w : W) (result : AuthResult) (w' : W) : Type 0 where
  pub user : User
  pub replacement : RefreshSession
  pub before : W
  pub rotating : W
  pub same_token : session.token_hash ≡ hex (s.sha256 token)
  pub unrevoked : session.revoked_at ≡ none
  pub unexpired : suc now ≤ session.expires_at
  pub found : s.repository.get_user_by_id session.user_id w ≡ (ok user, before)
  pub active : user.is_active ≡ true
  pub kept : user.deleted_at ≡ none
  pub rotated : s.repository.rotate_refresh_session id replacement rotating ≡ (ok tt, w')
  pub same_view : view rotating ≡ view w
  pub shown : result.user ≡ record user { password_hash = [] }

-- What a refresh that returned has checked and done.
pub record IsRefreshed {W V : Type 0} (s : AuthService W) (view : W → V) (token : Text) (w : W)
    (result : AuthResult) (w' : W) : Type 0 where
  pub claims : Claims
  pub session : RefreshSession
  pub read : W
  pub valid : validate_refresh_token s.jwt (trim_space token) w ≡ (ok claims, w)
  pub named : s.repository.get_refresh_session_by_token_id claims.id w ≡ (ok session, read)
  pub used : IsUsed s view token claims.id session (s.jwt.now read) read result w'
  pub same_view : view read ≡ view w

module _ {W V : Type 0} (s : AuthService W) (view : W → V)
    (keeps_session : (id : Text) (w : W)
      → view (s.repository.get_refresh_session_by_token_id id w).1 ≡ view w)
    (keeps_user : (id : ℤ) (w : W) → view (s.repository.get_user_by_id id w).1 ≡ view w)
    (keeps_issue : (user : User) (w : W) → view (new_session s user w).1 ≡ view w) where
  abbrev unknown_session : Error → Bool
  unknown_session e = is_app e err_auth_invalid_refresh || is_app e err_auth_user_not_found

  abbrev unknown_user : Error → Bool
  unknown_user e = is_app e err_auth_user_not_found

  -- The steps of `Refresh`, from the last one.
  abbrev finish : User → Text → TokenPair × RefreshSession → Exec W AuthResult
  finish user id issued =
      s.repository.rotate_refresh_session id issued.1
      >> return (record { user = public_user user; tokens = issued.0 })

  abbrev issue : Text → User → Exec W AuthResult
  issue id user =
      fail_if (is_closed user) (app err_auth_invalid_refresh)
      >> (new_session s user >>= finish user id)

  abbrev search : Text → Result User → Exec W AuthResult
  search id found = unless_app s unknown_user err_auth_invalid_refresh found >>= issue id

  abbrev use_session : Text → Text → RefreshSession → ℕ → Exec W AuthResult
  use_session token id session now =
      fail_if (is_unusable s token session now) (app err_auth_invalid_refresh)
      >> (attempt (s.repository.get_user_by_id session.user_id) >>= search id)

  abbrev tell_time : Text → Text → RefreshSession → Exec W AuthResult
  tell_time token id session = clock s.jwt >>= use_session token id session

  abbrev named_by : Text → Text → Result RefreshSession → Exec W AuthResult
  named_by token id read =
      unless_app s unknown_session err_auth_invalid_refresh read >>= tell_time token id

  abbrev read_session : Text → Claims → Exec W AuthResult
  read_session token claims =
      attempt (s.repository.get_refresh_session_by_token_id claims.id) >>= named_by token claims.id

  abbrev validated_as : Text → Result Claims → Exec W AuthResult
  validated_as token validated =
      or_refused s err_auth_invalid_refresh validated >>= read_session token

  issue-ok :
      (id : Text) (user : User) (result : AuthResult) (w w' : W)
      → issue id user w ≡ (ok result, w')
      → (is_closed user ≡ false)
        × (replacement : RefreshSession) × (rotating : W) × (s.repository.rotate_refresh_session id
              replacement rotating
            ≡ (ok tt, w'))
        × (view rotating ≡ view w)
        × (result.user ≡ record user { password_hash = [] })
  unfolding public_user
  issue-ok id user result w w' h =
      let (t, w1, a1, k1) =
        bind-inverts (fail_if (is_closed user) (app err_auth_invalid_refresh))
          (λ x. new_session s user >>= finish user id) w w' result h in
      let (issued, w2, a2, k2) =
        bind-inverts (new_session s user) (finish user id) w1 w' result k1 in
      let (d, w3, a3, k3) =
        bind-inverts (s.repository.rotate_refresh_session id issued.1)
          (λ x. return (record { user = public_user user; tokens = issued.0 })) w2 w' result k2 in
      let (opened, same1) =
        fail_if-inverts (is_closed user) (app err_auth_invalid_refresh) t w w1 a1 in
      let last = sym (ap (λ (p : Result AuthResult × W). p.1) k3) in
      (
        opened,
        issued.1,
        w2,
        a3 ∙ ap (λ v. (ok tt, v)) (sym last),
        sym (ap (λ (p : Result (TokenPair × RefreshSession) × W). view p.1) a2)
            ∙ keeps_issue user w1
            ∙ ap view same1,
        sym (ap (λ (r : AuthResult). r.user) (ok_eq (ap (λ (p : Result AuthResult × W). p.0) k3))),
      )

  usable_session :
      (token : Text) (session : RefreshSession) (now : ℕ)
      → is_unusable s token session now ≡ false
      → (session.token_hash ≡ hex (s.sha256 token))
        × (session.revoked_at ≡ none)
        × (suc now ≤ session.expires_at)
  unfolding hash_refresh_token
  usable_session token session now h = (
    (text_eq_iff session.token_hash (hex (s.sha256 token))).0 (ground arith),
    ground arith,
    ground arith,
  )

  open_account :
      (user : User) → is_closed user ≡ false → (user.is_active ≡ true) × (user.deleted_at ≡ none)
  open_account user h = (ground arith, ground arith)

  use-ok :
      (token id : Text) (session : RefreshSession) (now : ℕ) (result : AuthResult) (w w' : W)
      → use_session token id session now w ≡ (ok result, w')
      → IsUsed s view token id session now w result w'
  use-ok token id session now result w w' h =
      let (t, w1, a1, k1) =
        bind-inverts (fail_if (is_unusable s token session now) (app err_auth_invalid_refresh))
          (λ x. attempt (s.repository.get_user_by_id session.user_id) >>= search id) w w' result
          h in
      let (found, w2, a2, k2) =
        bind-inverts (attempt (s.repository.get_user_by_id session.user_id)) (search id) w1 w'
          result k1 in
      let (user, w3, a3, k3) =
        bind-inverts (unless_app s unknown_user err_auth_invalid_refresh found) (issue id) w2 w'
          result k2 in
      let (is_open, replacement, rotating, rotated, same_view, shown) =
        issue-ok id user result w3 w' k3 in
      let (usable, stay1) =
        fail_if-inverts (is_unusable s token session now) (app err_auth_invalid_refresh) t w w1
          a1 in
      let live = usable_session token session now usable in
      let opened = open_account user is_open in
      let finding = attempt-inverts (s.repository.get_user_by_id session.user_id) found w1 w2 a2 in
      let (owned, stay3) =
        unless_app-ok s unknown_user err_auth_invalid_refresh found user w2 w3 a3 in
      record {
        user = user;
        replacement = replacement;
        before = w2;
        rotating = rotating;
        same_token = live.0;
        unrevoked = live.1;
        unexpired = live.2;
        found =
            ap (s.repository.get_user_by_id session.user_id) (sym stay1)
            ∙ finding
            ∙ ap (λ r. (r, w2)) owned;
        active = opened.0;
        kept = opened.1;
        rotated = rotated;
        same_view =
            same_view
            ∙ ap view stay3
            ∙ sym (ap (λ (p : Result User × W). view p.1) finding)
            ∙ keeps_user session.user_id w1
            ∙ ap view stay1;
        shown = shown;
      }

  validate_stays :
      (value : Text) (r : Result Claims) (w w' : W)
      → validate_refresh_token s.jwt value w ≡ (r, w')
      → w' ≡ w
  unfolding validate
  validate_stays value r w w' h = sym (ap (λ (p : Result Claims × W). p.1) h)

  -- A refresh that returns has been given a valid refresh token whose session is known, has the SHA-256
  -- digest of the very token that was given, in hexadecimal, for its hash, is not revoked, and expires
  -- later than now; the session's account is active and not deleted; and the session of the token has been rotated, last of all. If the searches for a session
  -- and a user and the making of a session keep a part of the state, the rotation finds that part as it
  -- was before the refresh.
  pub refresh-IsRefreshed :
      (token : Text) (result : AuthResult) (w w' : W)
      → refresh s token w ≡ (ok result, w')
      → IsRefreshed s view token w result w'
  unfolding refresh public_user
  refresh-IsRefreshed token result w w' h =
      let (validated, w1, a1, k1) =
        bind-inverts (attempt (validate_refresh_token s.jwt (trim_space token)))
          (validated_as token) w w' result h in
      let (claims, w2, a2, k2) =
        bind-inverts (or_refused s err_auth_invalid_refresh validated) (read_session token) w1 w'
          result k1 in
      let (read, w3, a3, k3) =
        bind-inverts (attempt (s.repository.get_refresh_session_by_token_id claims.id))
          (named_by token claims.id) w2 w' result k2 in
      let (session, w4, a4, k4) =
        bind-inverts (unless_app s unknown_session err_auth_invalid_refresh read)
          (tell_time token claims.id) w3 w' result k3 in
      let used = use-ok token claims.id session (s.jwt.now w4) result w4 w' k4 in
      let valid =
        attempt-inverts (validate_refresh_token s.jwt (trim_space token)) validated w w1 a1 in
      let stay1 = validate_stays (trim_space token) validated w w1 valid in
      let (accepted, stay2) = or_refused-ok s err_auth_invalid_refresh validated claims w1 w2 a2 in
      let reading =
        attempt-inverts (s.repository.get_refresh_session_by_token_id claims.id) read w2 w3 a3 in
      let (known, stay4) =
        unless_app-ok s unknown_session err_auth_invalid_refresh read session w3 w4 a4 in
      let to_w = stay2 ∙ stay1 in
      record {
        claims = claims;
        session = session;
        read = w3;
        valid = valid ∙ ap (λ r. (r, w1)) accepted ∙ ap (λ v. (ok claims, v)) stay1;
        named =
            ap (s.repository.get_refresh_session_by_token_id claims.id) (sym to_w)
            ∙ reading
            ∙ ap (λ r. (r, w3)) known;
        used =
            subst (λ v. IsUsed s view token claims.id session (s.jwt.now v) v result w') (stay4)
              used;
        same_view =
            sym (ap (λ (p : Result RefreshSession × W). view p.1) reading)
            ∙ keeps_session claims.id w2
            ∙ ap view to_w;
      }
