-- ===== src/Http/Guard.antt =====
-- Who gets past the middleware `Auth`, and what the others are answered.
use api_example.Prelude.{
  ℕ, suc, ◌≤◌, ◌<◌, ◌≡◌, refl, sym, ap, ◌∙◌, String, false, Option, none, some, [], ◌∷◌, ◌++◌,
  arith, Bool-cases, inl, inr, ◌⊎◌,
}
use api_example.Prelude.Int.{ℤ, pos, leb_ℤ}
use api_example.Text.{Text}
use api_example.Text.Decimal.{format_int}
use api_example.Text.Numeral.{parse_int, parse_int-format_int}
use api_example.Errors.{find_app}
use api_example.Exec.{Result, ok, err, attempt, ◌>>=◌}
use api_example.Domain.{User, Actor}
use api_example.Tokens.{
  JwtManager, Claims, access, refresh, sign, validate, validate_access_token, claims_for,
  bearer_prefix, extract_bearer_token,
}
use api_example.Tokens.Bearer.{IsToken, extract_bearer_token_lem}
use api_example.Tokens.Pairs.{IsJwt, sign-ok, validate-sign}
use api_example.Http.{
  Response, Handler, write_error, as_app, authenticate, behind, token_actor, actor_of, actor_with,
}

abbrev of_user : User → Actor
of_user user = record { user_id = user.id; role = user.role }

module _ {W : Type 0} (m : JwtManager W) where
  token_actor-IsToken :
      (token : Text) (w : W)
      → IsToken token
      → token_actor m token w ≡ (attempt (validate_access_token m token) >>= actor_with) w
  token_actor-IsToken [] w h = absurd (h.0 refl)
  token_actor-IsToken (c ∷ s) w h = refl

  actor_of-positive :
      (role : String) (n : ℕ) (w : W)
      → actor_of role (some (pos (suc n))) w
        ≡ (ok (record { user_id = pos (suc n); role = role }), w)
  actor_of-positive role n w = ground arith

  module _ (law : IsJwt m) where
    -- A request whose header is "Bearer " and an access token that `sign` made for a user is let in as
    -- that user, with its role, from the time of the signing until the token expires. The user's id is
    -- positive and one of 64 bits, and the library of the tokens keeps what it documents.
    pub authenticate-sign :
        (user : User) (n expires_at : ℕ) (id token : Text) (w w1 w2 : W)
        → user.id ≡ pos (suc n)
        → suc n < 9223372036854775808
        → sign m user access expires_at id w ≡ (ok token, w1)
        → m.now w ≤ m.now w2
        → m.now w2 < expires_at
        → authenticate m (bearer_prefix ++ token) w2
          ≡ (ok (record { user_id = user.id; role = user.role }), w2)
    unfolding authenticate claims_for
    authenticate-sign user n expires_at id token w w1 w2 numbered small h begun open_ =
        let (signing, _) = sign-ok m law user access expires_at id token w w1 h in
        let token_is =
          law.compact (claims_for m user access expires_at id (m.now w)) token signing in
        let (valid, _) =
          validate-sign m law user access refresh expires_at id token w w1 w2 h (λ e. cc)
            (λ e. absurd cc) begun open_ in
        let number : parse_int (format_int user.id) ≡ some (pos (suc n)) =
          rw numbered (parse_int-format_int (pos (suc n)) small) in
        ap (λ t. token_actor m t w2) (extract_bearer_token_lem token token_is)
        ∙ token_actor-IsToken token w2 token_is
        ∙ ap (λ (p : Result Claims × W). actor_with p.0 p.1) valid
        ∙ ap (λ r. actor_of user.role r w2) number
        ∙ actor_of-positive user.role n w2
        ∙ ap (λ a. (ok (record { user_id = a; role = user.role }), w2)) (sym numbered)

  module _ (request_id : Text) (handler : Option Actor → Handler W) (w : W) where
    -- The response to what the middleware has made of a header.
    abbrev answered : Result Actor × W → Response × W
    answered p = elim p.0 [
      | ok actor ↦ handler (some actor) p.1
      | err e ↦ (write_error request_id e, p.1)
    ]

    -- The handler has run for the actor that a valid access token names, or the answer is 401.
    abbrev pub IsGuarded : Text → Response × W → Type 0
    IsGuarded header answer =
        ((actor : Actor) × (claims : Claims) × (answer ≡ handler (some actor) w)
          × (validate_access_token m (extract_bearer_token header) w ≡ (ok claims, w))
          × (parse_int claims.user_id ≡ some actor.user_id)
          × (leb_ℤ actor.user_id (pos 0) ≡ false)
          × (claims.role ≡ actor.role))
        ⊎ ((answer.0.status ≡ 401) × (answer.1 ≡ w))

    actor_of-IsGuarded :
        (header : Text) (claims : Claims) (number : Option ℤ)
        → validate_access_token m (extract_bearer_token header) w ≡ (ok claims, w)
        → parse_int claims.user_id ≡ number
        → IsGuarded header (answered (actor_of claims.role number w))
    unfolding write_error as_app find_app
    actor_of-IsGuarded header claims none valid number = inr (refl, refl)
    actor_of-IsGuarded header claims (some id) valid number = elim (Bool-cases (leb_ℤ id (pos 0))) [
      | inl low ↦ rw low (inr (refl, refl))
      | inr high ↦ rw high (
          inl
            (record { user_id = id; role = claims.role }, claims, refl, valid, number, high, refl))
    ]

    actor_with-IsGuarded :
        (header : Text) (r : Result Claims)
        → validate_access_token m (extract_bearer_token header) w ≡ (r, w)
        → IsGuarded header (answered (actor_with r w))
    unfolding write_error as_app find_app
    actor_with-IsGuarded header (err e) valid = inr (refl, refl)
    actor_with-IsGuarded header (ok claims) valid =
        actor_of-IsGuarded header claims (parse_int claims.user_id) valid refl

    token_actor-IsGuarded :
        (header token : Text)
        → extract_bearer_token header ≡ token
        → IsGuarded header (answered (token_actor m token w))
    unfolding write_error as_app find_app validate
    token_actor-IsGuarded header [] e = inr (refl, refl)
    token_actor-IsGuarded header (c ∷ s) e =
        actor_with-IsGuarded header (validate_access_token m (c ∷ s) w).0
          (ap (λ t. validate_access_token m t w) e)

    -- Behind the middleware a handler runs only where the header carries an access token that is valid
    -- now, whose user id reads as a positive integer, and then for that user with the role of the
    -- token. Any other request is answered with status 401 and leaves the state as it was.
    pub behind_lem : (header : Text) → IsGuarded header (behind m request_id header handler w)
    unfolding authenticate
    behind_lem header = token_actor-IsGuarded header (extract_bearer_token header) refl
