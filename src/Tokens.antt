-- ===== src/Tokens.antt =====
-- internal/auth/jwt.go and password.go: tokens of golang-jwt, and passwords of bcrypt. The two
-- libraries, the clock and the random bytes are parameters; times are in seconds.
pub mod Pairs
pub mod Bearer
use api_example.Prelude.{
  ℕ, ◌+◌, String, Bool, true, false, ◌||◌, ◌&&◌, not, Option, none, some, List, [], ◌∷◌, ◌++◌,
  str_eq, if◌then◌else◌, length, drop,
}
use api_example.Text.{Text, text, is_empty, has_prefix, contains, trim_space}
use api_example.Text.Decimal.{format_int}
use api_example.Errors.{Error, plain, wrapped}
use api_example.Exec.{
  Result, ok, err, Exec, Done, return, fail, attempt, fail_if, from_result, ◌>>=◌, ◌>>◌,
}
use api_example.Domain.{User}
use api_example.Text.Hex.{hex}

-- `TokenType`
pub data TokenType : Type 0 where
  access refresh : TokenType

unfoldable pub token_type_text : TokenType → String
token_type_text access = "access"
token_type_text refresh = "refresh"

-- `Claims`, with the fields of jwt.RegisteredClaims that the program sets or reads.
pub record Claims : Type 0 where
  pub user_id : Text
  pub email : Text
  pub role : String
  pub token_type : String
  pub issuer : Text
  pub subject : Text
  pub audience : List Text
  pub expires_at : Option ℕ
  pub not_before : Option ℕ
  pub issued_at : Option ℕ
  pub id : Text

pub record TokenPair : Type 0 where
  pub access_token : Text
  pub refresh_token : Text
  pub expires_at : ℕ

-- The options of the parser: HS256 is the only method, and an issuer and an audience may be asked for.
pub record ParserOptions : Type 0 where
  pub issuer : Option Text
  pub audience : Option Text

-- `JWTManager`. `sign_hs256` is SignedString with a secret, and `parse_with_claims` ParseWithClaims at
-- a time, which returns the claims and token.Valid. `now` is time.Now and `random` rand.Read.
pub record JwtManager (W : Type 0) : Type 0 where
  pub secret : Text
  pub issuer : Text
  pub audience : Text
  pub access_ttl : ℕ
  pub refresh_ttl : ℕ
  pub sign_hs256 : Text → Claims → Result Text
  pub parse_with_claims : ℕ → Text → ParserOptions → Text → Result (Claims × Bool)
  pub now : W → ℕ
  pub random : ℕ → Exec W (List ℕ)

abbrev pub option_of : Text → Option Text
option_of [] = none
option_of (c ∷ s) = some (c ∷ s)

module _ {W : Type 0} (m : JwtManager W) where
  abbrev pub clock : Exec W ℕ
  clock w = (ok (m.now w), w)

  -- The claims that `sign` makes at a time.
  unfoldable pub claims_for : User → TokenType → ℕ → Text → ℕ → Claims
  claims_for user token_type expires_at token_id now = record {
    user_id = format_int user.id;
    email = user.email;
    role = user.role;
    token_type = token_type_text token_type;
    issuer = m.issuer;
    subject = format_int user.id;
    audience = m.audience ∷ [];
    expires_at = some expires_at;
    not_before = some now;
    issued_at = some now;
    id = token_id;
  }

  abbrev pub signed : TokenType → Result Text → Exec W Text
  signed token_type (ok value) = return value
  signed token_type (err e) =
      fail (wrapped (text "sign " ++ (text (token_type_text token_type) ++ text " token: ")) e [])

  -- `sign`
  unfoldable pub sign : User → TokenType → ℕ → Text → Exec W Text
  sign user token_type expires_at token_id = do
    now ← clock
    signed token_type (m.sign_hs256 m.secret (claims_for user token_type expires_at token_id now))

  abbrev pub identified : Result (List ℕ) → Exec W Text
  identified (ok bytes) = return (hex bytes)
  identified (err e) = fail (wrapped (text "create token ID: ") e [])

  -- `randomTokenID`
  unfoldable pub random_token_id : Exec W Text
  random_token_id = do drawn ← attempt (m.random 16); identified drawn

  -- `GenerateTokenPair`
  unfoldable pub generate_token_pair : User → Exec W TokenPair
  generate_token_pair user = do
    now ← clock
    access_token ← sign user access (now + m.access_ttl) []
    refresh_id ← random_token_id
    refresh_token ← sign user refresh (now + m.refresh_ttl) refresh_id
    return (record {
      access_token = access_token;
      refresh_token = refresh_token;
      expires_at = now + m.access_ttl;
    })

  abbrev pub parser_options : ParserOptions
  parser_options = record { issuer = option_of m.issuer; audience = option_of m.audience }

  -- The error of a token that does not parse; with no error and a token that is not valid, %w prints
  -- a nil error.
  abbrev pub parsed : Result (Claims × Bool) → Result Claims
  parsed (err e) = err (wrapped (text "invalid token: ") e [])
  parsed (ok (claims, false)) = err (plain (text "invalid token: %!w(<nil>)"))
  parsed (ok (claims, true)) = ok claims

  abbrev is_refresh : TokenType → Bool
  is_refresh access = false
  is_refresh refresh = true

  abbrev pub checked_claims : TokenType → Result Claims → Result Claims
  checked_claims expected (err e) = err e
  checked_claims expected (ok claims) =
      if not (str_eq claims.token_type (token_type_text expected))
      then err (plain (text "invalid token type: expected " ++ text (token_type_text expected)))
      else if is_empty claims.user_id
      then err (plain (text "token user ID is missing"))
      else if is_refresh expected && is_empty claims.id
      then err (plain (text "refresh token ID is missing"))
      else ok claims

  -- `validate`
  unfoldable pub validate : Text → TokenType → Exec W Claims
  validate value expected w = (
    checked_claims expected (parsed (m.parse_with_claims (m.now w) m.secret parser_options value)),
    w,
  )

  -- `ValidateAccessToken` and `ValidateRefreshToken`
  abbrev pub validate_access_token : Text → Exec W Claims
  validate_access_token value = validate value access

  abbrev pub validate_refresh_token : Text → Exec W Claims
  validate_refresh_token value = validate value refresh

abbrev pub bearer_prefix : Text
bearer_prefix = text "Bearer "

abbrev pub token_of : Text → Text
token_of value = if is_empty value || contains value (32 ∷ []) then [] else value

-- `ExtractBearerToken`
unfoldable pub extract_bearer_token : Text → Text
unfolding text has_prefix contains trim_space
extract_bearer_token header =
    if not (has_prefix header bearer_prefix)
    then []
    else token_of (trim_space (drop (length bearer_prefix) header))

-- bcrypt.GenerateFromPassword and bcrypt.CompareHashAndPassword, as `HashPassword` and
-- `VerifyPassword` call them; `verify` says whether the error is nil. A salt is drawn.
pub record Passwords (W : Type 0) : Type 0 where
  pub hash : Text → Exec W Text
  pub verify : Text → Text → Bool
