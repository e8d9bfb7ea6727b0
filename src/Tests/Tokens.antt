-- ===== src/Tests/Tokens.antt =====
-- An access token of the user 1, signed at the time 7, and the middleware that reads it at the time 9.
use api_example.Prelude.{◌≡◌, refl, ◌≢◌, true, none, [], ◌∷◌, ◌++◌, arith}
use api_example.Prelude.Int.{pos}
use api_example.Text.{Text}
use api_example.Errors.{Error}
use api_example.Exec.{ok, err}
use api_example.Domain.{User, role_user}
use api_example.Sql.{Database}
use api_example.Tokens.{
  TokenType, access, refresh, Claims, sign, validate, claims_for, bearer_prefix,
}
use api_example.Tokens.Pairs.{validate-sign}
use api_example.Http.{authenticate}
use api_example.Http.Guard.{authenticate-sign}
use api_example.Tests.Fixtures.{database_of}
use api_example.Tests.Keyring.{manager, manager-IsJwt, access_token_text}

abbrev signer : User
signer = record {
  id = pos 1;
  email = b'e' ∷ [];
  password_hash = [];
  role = role_user;
  is_active = true;
  created_at = 0;
  updated_at = 0;
  deleted_at = none;
}

abbrev signing : Database
signing = database_of [] []

abbrev reading : Database
reading = record signing { now = 9 }

access-signed : sign manager signer access 17 [] signing ≡ (ok access_token_text, signing)
unfolding sign claims_for api_example.Text.text_eq api_example.Text.Decimal.format_int
    api_example.Tokens.token_type_text
access-signed = refl

access_is_not_refresh : access ≡ refresh → ◌≢◌ {A = Text} [] []
access_is_not_refresh e = absurd cc

validate-sign_example :
    (validate manager access_token_text access reading
      ≡ (ok (claims_for manager signer access 17 [] 7), reading))
    × ((e : Error) × (validate manager access_token_text refresh reading ≡ (err e, reading)))
validate-sign_example =
    validate-sign manager manager-IsJwt signer access refresh 17 [] access_token_text signing
      signing reading access-signed (λ e. cc) access_is_not_refresh (omega arith) (omega arith)

authenticate-sign_example :
    authenticate manager (bearer_prefix ++ access_token_text) reading
    ≡ (ok (record { user_id = pos 1; role = role_user }), reading)
authenticate-sign_example =
    authenticate-sign manager manager-IsJwt signer 0 17 [] access_token_text signing signing reading
      refl (omega arith) access-signed (omega arith) (omega arith)
