-- ===== src/Tests/Keyring.antt =====
-- A token manager for three tokens: the access token and the refresh token that it gives the user 1
-- at the time 7, and a refresh token that the user got before.
use api_example.Prelude.{
  ℕ, ◌≤◌, ◌<◌, ◌≡◌, refl, sym, ap, ◌∙◌, String, Bool, true, false, ◌&&◌, Option, none, some, List,
  [], ◌∷◌, arith, str_eq, str_eq_iff, leb, ltb, ◌==◌, if◌then◌else◌, Bool-cases, inl, inr,
}
use api_example.Text.{Text, text_eq, text_eq_iff}
use api_example.Exec.{Result, ok, err}
use api_example.Domain.{role_user}
use api_example.Sql.{Database}
use api_example.Tokens.{Claims, JwtManager, ParserOptions, parser_options}
use api_example.Tokens.Bearer.{IsToken}
use api_example.Tokens.Pairs.{IsJwt, IsTimeless}
use api_example.Tests.Fixtures.{down}

abbrev audiences_are : Text → List Text → Bool
audiences_are a [] = false
audiences_are a (b ∷ []) = text_eq b a
audiences_are a (b ∷ c ∷ bs) = false

audiences_are-eq : (a : Text) (bs : List Text) → audiences_are a bs ≡ true → bs ≡ a ∷ []
audiences_are-eq a [] h = ground arith
audiences_are-eq a (b ∷ []) h = ap (λ x. x ∷ []) ((text_eq_iff b a).0 h)
audiences_are-eq a (b ∷ c ∷ bs) h = ground arith

abbrev time_is : ℕ → Option ℕ → Bool
time_is n none = false
time_is n (some k) = k == n

time_is-eq : (n : ℕ) (t : Option ℕ) → time_is n t ≡ true → t ≡ some n
time_is-eq n none h = ground arith
time_is-eq n (some k) h = ap some (ground arith)

-- The claims of the user 1 at the time 7.
abbrev pub claims_of : String → ℕ → Text → Claims
claims_of token_type until id = record {
  user_id = b'1' ∷ [];
  email = b'e' ∷ [];
  role = role_user;
  token_type = token_type;
  issuer = b'i' ∷ [];
  subject = b'1' ∷ [];
  audience = (b'a' ∷ []) ∷ [];
  expires_at = some until;
  not_before = some 7;
  issued_at = some 7;
  id = id;
}

abbrev claims_are : String → ℕ → Text → Claims → Bool
claims_are token_type until id c =
    (text_eq c.user_id (b'1' ∷ [])
      && text_eq c.email (b'e' ∷ [])
      && str_eq c.role role_user
      && str_eq c.token_type token_type)
    && (text_eq c.issuer (b'i' ∷ [])
        && text_eq c.subject (b'1' ∷ [])
        && audiences_are (b'a' ∷ []) c.audience)
    && (time_is until c.expires_at
        && time_is 7 c.not_before
        && time_is 7 c.issued_at
        && text_eq c.id id)

claims_are-eq :
    (token_type : String) (until : ℕ) (id : Text) (c : Claims)
    → claims_are token_type until id c ≡ true
    → c ≡ claims_of token_type until id
claims_are-eq token_type until id c h =
    let user_id = (text_eq_iff c.user_id (b'1' ∷ [])).0 (ground arith) in
    let email = (text_eq_iff c.email (b'e' ∷ [])).0 (ground arith) in
    let role = (str_eq_iff c.role role_user).0 (ground arith) in
    let kind = (str_eq_iff c.token_type token_type).0 (ground arith) in
    let issuer = (text_eq_iff c.issuer (b'i' ∷ [])).0 (ground arith) in
    let subject = (text_eq_iff c.subject (b'1' ∷ [])).0 (ground arith) in
    let audience = audiences_are-eq (b'a' ∷ []) c.audience (ground arith) in
    let expires = time_is-eq until c.expires_at (ground arith) in
    let not_before = time_is-eq 7 c.not_before (ground arith) in
    let issued = time_is-eq 7 c.issued_at (ground arith) in
    let named = (text_eq_iff c.id id).0 (ground arith) in cc

abbrev pub new_id : Text
new_id = b'0' ∷ b'1' ∷ []

abbrev pub old_id : Text
old_id = b'0' ∷ b'0' ∷ []

abbrev pub access_token_text : Text
access_token_text = b'A' ∷ []

abbrev pub refresh_token_text : Text
refresh_token_text = b'R' ∷ []

abbrev pub old_token_text : Text
old_token_text = b'O' ∷ []

abbrev sign_three : Text → Claims → Result Text
sign_three secret c =
    if claims_are "access" 17 [] c
    then ok access_token_text
    else if claims_are "refresh" 27 new_id c
    then ok refresh_token_text
    else if claims_are "refresh" 20 old_id c
    then ok old_token_text
    else err down

abbrev in_time : ℕ → String → ℕ → Text → Result (Claims × Bool)
in_time now token_type until id =
    if leb 7 now && ltb now until then ok (claims_of token_type until id, true) else err down

abbrev parse_three : ℕ → Text → ParserOptions → Text → Result (Claims × Bool)
parse_three now secret options value =
    if text_eq value access_token_text
    then in_time now "access" 17 []
    else if text_eq value refresh_token_text
    then in_time now "refresh" 27 new_id
    else if text_eq value old_token_text
    then in_time now "refresh" 20 old_id
    else err down

abbrev pub manager : JwtManager Database
manager = record {
  secret = b's' ∷ [];
  issuer = b'i' ∷ [];
  audience = b'a' ∷ [];
  access_ttl = 10;
  refresh_ttl = 20;
  sign_hs256 = sign_three;
  parse_with_claims = parse_three;
  now = λ d. d.now;
  random = λ n d. (ok (1 ∷ []), d);
}

in_time-ok :
    (now : ℕ) (token_type : String) (until : ℕ) (id : Text) (a : Claims × Bool)
    → in_time now token_type until id ≡ ok a
    → a.0 ≡ claims_of token_type until id
in_time-ok now token_type until id a h = ground arith

pub manager-IsTimeless : IsTimeless manager
manager-IsTimeless value now later a b h k = ground (
  arith,
  in_time-ok now "access" 17 [] a,
  in_time-ok later "access" 17 [] b,
  in_time-ok now "refresh" 27 new_id a,
  in_time-ok later "refresh" 27 new_id b,
  in_time-ok now "refresh" 20 old_id a,
  in_time-ok later "refresh" 20 old_id b,
)

-- Where a token was made of claims, the claims are its own, and it is the text that parses to them.
abbrev IsSigned : Claims → Text → Type 0
IsSigned c value =
    (token_type : String) × (until : ℕ) × (id : Text) × (c ≡ claims_of token_type until id)
    × IsToken value
    × ((now : ℕ) (options : ParserOptions)
        → 7 ≤ now
        → now < until
        → parse_three now manager.secret options value ≡ ok (claims_of token_type until id, true))

of_token :
    (c : Claims) (value token : Text) (token_type : String) (until : ℕ) (id : Text)
    → claims_are token_type until id c ≡ true
    → ◌≡◌ {A = Result Text} (ok token) (ok value)
    → IsSigned (claims_of token_type until id) token
    → IsSigned c value
of_token c value token token_type until id matches h is_signed =
    let same : value ≡ token = cc in
    rw (claims_are-eq token_type until id c matches, same) is_signed

access-IsSigned : IsSigned (claims_of "access" 17 []) access_token_text
unfolding text_eq
access-IsSigned = (
  "access",
  17,
  [],
  refl,
  (λ e. cc, ((omega arith, omega arith), tt)),
  λ now options a b. ground arith,
)

refresh-IsSigned : IsSigned (claims_of "refresh" 27 new_id) refresh_token_text
unfolding text_eq
refresh-IsSigned = (
  "refresh",
  27,
  new_id,
  refl,
  (λ e. cc, ((omega arith, omega arith), tt)),
  λ now options a b. ground arith,
)

old-IsSigned : IsSigned (claims_of "refresh" 20 old_id) old_token_text
unfolding text_eq
old-IsSigned = (
  "refresh",
  20,
  old_id,
  refl,
  (λ e. cc, ((omega arith, omega arith), tt)),
  λ now options a b. ground arith,
)

sign_three-IsSigned :
    (c : Claims) (value : Text) → sign_three manager.secret c ≡ ok value → IsSigned c value
sign_three-IsSigned c value h = elim (Bool-cases (claims_are "access" 17 [] c)) [
  | inl a ↦ of_token c value access_token_text "access" 17 [] a (rw a at h) access-IsSigned
  | inr not_access ↦ elim (Bool-cases (claims_are "refresh" 27 new_id c)) [
    | inl r ↦
        of_token c value refresh_token_text "refresh" 27 new_id r (rw (not_access, r) at h)
          refresh-IsSigned
    | inr not_new ↦ elim (Bool-cases (claims_are "refresh" 20 old_id c)) [
      | inl o ↦
          of_token c value old_token_text "refresh" 20 old_id o (rw (not_access, not_new, o) at h)
            old-IsSigned
      | inr not_old ↦
          (let bad : ◌≡◌ {A = Result Text} (err down) (ok value) =
              rw (not_access, not_new, not_old) at h in
            absurd cc)
    ]
  ]
]

reads-IsSigned :
    (c : Claims) (value : Text) (from now until : ℕ) (options : ParserOptions)
    → IsSigned c value
    → c.not_before ≡ some from
    → c.expires_at ≡ some until
    → from ≤ now
    → now < until
    → parse_three now manager.secret options value ≡ ok (c, true)
reads-IsSigned c value from now until options (token_type, last, id, is, token, reads) begins ends
      begun open_ =
    let from_is : from ≡ 7 = cc in
    let until_is : until ≡ last = cc in
    reads now options (omega (arith, begun, from_is)) (omega (arith, open_, until_is))
    ∙ ap (λ x. ok (x, true)) (sym is)

pub manager-IsJwt : IsJwt manager
manager-IsJwt = record {
  accepts = λ c value from now until h begins ends issuer audience begun open_.
      reads-IsSigned c value from now until (parser_options manager) (sign_three-IsSigned c value h)
        begins ends begun open_;
  compact = λ c value h.
      let (token_type, last, id, is, token, reads) = sign_three-IsSigned c value h in token;
}
