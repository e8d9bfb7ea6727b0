-- ===== src/Tokens/Pairs.antt =====
-- Tokens that the manager signs are those that it accepts, each kind at its own place.
use api_example.Prelude.{
  ℕ, ◌≤◌, ◌<◌, ◌≡◌, refl, sym, ap, ◌∙◌, ◌≢◌, Bool, true, false, some, [], ◌∷◌, ◌++◌, arith,
}
use api_example.Text.{Text, text, is_empty}
use api_example.Text.Decimal.{format_int}
use api_example.Text.Numeral.{format_int-ne-nil}
use api_example.Errors.{Error, plain}
use api_example.Exec.{Result, ok, err}
use api_example.Domain.{User}
use api_example.Tokens.{
  TokenType, access, refresh, token_type_text, Claims, JwtManager, claims_for, sign, signed,
  validate, checked_claims, parsed, parser_options,
}
use api_example.Tokens.Bearer.{IsToken}

-- What golang-jwt documents of a token that was signed with the secret: it parses, with its claims,
-- from its not-before time until its expiry, if the issuer and the audience are those asked for; and
-- its compact form is made of base64url characters and dots. The law is asked for all claims that the
-- library signs, so it is for signers that refuse what JSON does not keep: texts that are not UTF-8.
-- Those that `JWTManager` makes are decimal, hexadecimal, names of roles, and configured texts.
pub record IsJwt {W : Type 0} (m : JwtManager W) : Type 0 where
  pub accepts :
      (claims : Claims) (value : Text) (from now until : ℕ)
      → m.sign_hs256 m.secret claims ≡ ok value
      → claims.not_before ≡ some from
      → claims.expires_at ≡ some until
      → claims.issuer ≡ m.issuer
      → claims.audience ≡ m.audience ∷ []
      → from ≤ now
      → now < until
      → m.parse_with_claims now m.secret (parser_options m) value ≡ ok (claims, true)
  pub compact :
      (claims : Claims) (value : Text) → m.sign_hs256 m.secret claims ≡ ok value → IsToken value

is_empty_ne : (s : Text) → s ≢ [] → is_empty s ≡ false
is_empty_ne [] h = absurd (h refl)
is_empty_ne (c ∷ s) h = refl

module _ {W : Type 0} (m : JwtManager W) (law : IsJwt m) where
  -- `sign` gives what the library signs, at the time of the call.
  pub sign-ok :
      (user : User) (token_type : TokenType) (expires_at : ℕ) (id value : Text) (w w' : W)
      → sign m user token_type expires_at id w ≡ (ok value, w')
      → (m.sign_hs256 m.secret (claims_for m user token_type expires_at id (m.now w)) ≡ ok value)
        × (w' ≡ w)
  unfolding sign
  sign-ok user token_type expires_at id value w w' h =
      by_result (m.sign_hs256 m.secret (claims_for m user token_type expires_at id (m.now w))) h
    where
      by_result :
          (r : Result Text) → signed m token_type r w ≡ (ok value, w') → (r ≡ ok value) × (w' ≡ w)
      by_result (ok v) k =
          (ap (λ (p : Result Text × W). p.0) k, sym (ap (λ (p : Result Text × W). p.1) k))
      by_result (err e) k = absurd cc

  checked_same :
      (user : User) (token_type : TokenType) (expires_at : ℕ) (id : Text) (now : ℕ)
      → (token_type ≡ refresh → id ≢ [])
      → checked_claims m token_type (ok (claims_for m user token_type expires_at id now))
        ≡ ok (claims_for m user token_type expires_at id now)
  unfolding claims_for token_type_text
  checked_same user access expires_at id now h =
      rw (is_empty_ne (format_int user.id) (format_int-ne-nil user.id))
  checked_same user refresh expires_at id now h =
      rw (is_empty_ne (format_int user.id) (format_int-ne-nil user.id), is_empty_ne id (h refl))

  checked_other :
      (user : User) (token_type other : TokenType) (expires_at : ℕ) (id : Text) (now : ℕ)
      → other ≢ token_type
      → (e : Error) × (checked_claims m other (ok (claims_for m user token_type expires_at id now))
          ≡ err e)
  unfolding claims_for token_type_text
  checked_other user access access expires_at id now h = absurd (h refl)
  checked_other user access refresh expires_at id now h =
      (plain (text "invalid token type: expected " ++ text "refresh"), refl)
  checked_other user refresh access expires_at id now h =
      (plain (text "invalid token type: expected " ++ text "access"), refl)
  checked_other user refresh refresh expires_at id now h = absurd (h refl)

  -- A token that `sign` made is accepted as one of its own type, with the claims of the user and the
  -- token's id, from the time of its signing until it expires; and it is refused as one of another
  -- type. A refresh token is to have an id, and the library to keep what it documents.
  pub validate-sign :
      (user : User) (token_type other : TokenType) (expires_at : ℕ) (id value : Text) (w w1 w2 : W)
      → sign m user token_type expires_at id w ≡ (ok value, w1)
      → other ≢ token_type
      → (token_type ≡ refresh → id ≢ [])
      → m.now w ≤ m.now w2
      → m.now w2 < expires_at
      → (validate m value token_type w2
          ≡ (ok (claims_for m user token_type expires_at id (m.now w)), w2))
        × ((e : Error) × (validate m value other w2 ≡ (err e, w2)))
  unfolding validate claims_for
  validate-sign user token_type other expires_at id value w w1 w2 h apart named begun open_ =
      let (signing, _) = sign-ok user token_type expires_at id value w w1 h in
      let reads =
        law.accepts (claims_for m user token_type expires_at id (m.now w)) value (m.now w)
          (m.now w2) expires_at signing refl refl refl refl begun open_ in
      (
        ap (λ r. (checked_claims m token_type (parsed m r), w2)) reads
            ∙ ap (λ r. (r, w2)) (checked_same user token_type expires_at id (m.now w) named),
        let (e, refused) = checked_other user token_type other expires_at id (m.now w) apart in
            (
              e,
              ap (λ r. (checked_claims m other (parsed m r), w2)) reads ∙ ap (λ r. (r, w2)) refused,
            ),
      )

-- The claims of a token do not depend on the time at which it is read.
abbrev pub IsTimeless : {W : Type 0} → JwtManager W → Type 0
IsTimeless m =
    (value : Text) (now later : ℕ) (a b : Claims × Bool)
    → m.parse_with_claims now m.secret (parser_options m) value ≡ ok a
    → m.parse_with_claims later m.secret (parser_options m) value ≡ ok b
    → a.0 ≡ b.0

module _ {W : Type 0} (m : JwtManager W) where
  parsed-ok :
      (expected : TokenType) (r : Result (Claims × Bool)) (claims : Claims)
      → checked_claims m expected (parsed m r) ≡ ok claims
      → r ≡ ok (claims, true)
  parsed-ok expected (err e) claims h = absurd cc
  parsed-ok expected (ok (c, false)) claims h = absurd cc
  parsed-ok access (ok (c, true)) claims h = ground arith
  parsed-ok refresh (ok (c, true)) claims h = ground arith

  -- A token that is accepted at two times has the same claims.
  pub validate_same :
      (value : Text) (expected : TokenType) (a b : Claims) (w w1 v v1 : W)
      → IsTimeless m
      → validate m value expected w ≡ (ok a, w1)
      → validate m value expected v ≡ (ok b, v1)
      → a ≡ b
  unfolding validate
  validate_same value expected a b w w1 v v1 timeless h k =
      timeless value (m.now w) (m.now v) (a, true) (b, true)
        (parsed-ok expected (m.parse_with_claims (m.now w) m.secret (parser_options m) value) a
          (ap (λ (p : Result Claims × W). p.0) h))
        (parsed-ok expected (m.parse_with_claims (m.now v) m.secret (parser_options m) value) b
          (ap (λ (p : Result Claims × W). p.0) k))
