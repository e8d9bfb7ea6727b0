-- ===== src/Sql.antt =====
-- The PostgreSQL database as the queries of internal/repository/db see it: the tables of
-- migrations/list, the time that NOW() gives, and a schedule of failures of the connection.
pub mod Auth
pub mod Documents
use api_example.Prelude.{
  ℕ, zero, suc, ◌+◌, ◌==◌, leb, String, Bool, true, false, Option, none, some, List, [], ◌∷◌, ltb,
  ◌&&◌, ◌||◌, if◌then◌else◌,
}
use api_example.Prelude.Int.{ℤ}
use api_example.Text.{Text}
use api_example.Errors.{Error, pg_error}
use api_example.Exec.{Result, ok, err, Exec}
use api_example.Domain.Status.{DocumentStatus}

-- `db.Document`: a row of the table documents.
pub record DocumentRow : Type 0 where
  pub id : ℤ
  pub owner_id : ℤ
  pub original_name : Text
  pub media_type : Text
  pub size_bytes : ℤ
  pub storage_key : Text
  pub checksum_sha256 : Option Text
  pub status : DocumentStatus
  pub processing_error : Option Text
  pub created_at : Option ℕ
  pub updated_at : Option ℕ
  pub deleted_at : Option ℕ

-- `db.User` joined with its row of roles.
pub record UserRow : Type 0 where
  pub id : ℤ
  pub email : Text
  pub password_hash : Text
  pub role_name : String
  pub is_active : Bool
  pub created_at : Option ℕ
  pub updated_at : Option ℕ
  pub deleted_at : Option ℕ

-- `db.RefreshSession`: a row of the table refresh_sessions.
pub record SessionRow : Type 0 where
  pub id : ℤ
  pub user_id : ℤ
  pub token_id : Text
  pub token_hash : Text
  pub expires_at : Option ℕ
  pub revoked_at : Option ℕ
  pub replaced_by_token_id : Option Text
  pub created_at : Option ℕ

-- The tables, in the order of insertion, with the next value of each BIGSERIAL. `faults` says for
-- each statement to come whether it fails, and how; when it is used up no statement fails.
pub record Database : Type 0 where
  pub roles : List String
  pub users : List UserRow
  pub next_user : ℕ
  pub sessions : List SessionRow
  pub next_session : ℕ
  pub documents : List DocumentRow
  pub next_document : ℕ
  pub now : ℕ
  pub faults : List (Option Error)

-- One statement: it fails as scheduled and changes nothing, or it runs.
abbrev pub statement : {A : Type 0} → Exec Database A → Exec Database A
statement run d = elim d.faults [
  | [] ↦ run d
  | none ∷ rest ↦ run (record d { faults = rest })
  | some e ∷ rest ↦ (err e, record d { faults = rest })
]

module _ {A : Type 0} where
  -- SELECT … WHERE
  abbrev pub select : (A → Bool) → List A → List A
  select where_clause [] = []
  select where_clause (r ∷ rows) =
      let rest = select where_clause rows in if where_clause r then r ∷ rest else rest

  -- UPDATE … SET … WHERE
  abbrev pub update : (A → Bool) → (A → A) → List A → List A
  update where_clause change [] = []
  update where_clause change (r ∷ rows) =
      (if where_clause r then change r else r) ∷ update where_clause change rows

  -- The number of the rows that a WHERE clause selects.
  abbrev pub count : (A → Bool) → List A → ℕ
  count where_clause [] = 0
  count where_clause (r ∷ rows) =
      let rest = count where_clause rows in if where_clause r then suc rest else rest

abbrev pub is_null {ℓ} : {A : Type ℓ} → Option A → Bool
is_null none = true
is_null (some a) = false

-- After the first byte of a UTF-8 character: how many bytes follow, and the bounds of the next one.
abbrev character_rest : ℕ → ℕ × ℕ × ℕ
character_rest c =
    if ltb c 0x80
    then (0, 0x80, 0xbf)
    else if ltb c 0xe0
    then (1, 0x80, 0xbf)
    else if c == 0xe0
    then (2, 0xa0, 0xbf)
    else if c == 0xed
    then (2, 0x80, 0x9f)
    else if ltb c 0xf0
    then (2, 0x80, 0xbf)
    else if c == 0xf0
    then (3, 0x90, 0xbf)
    else if c == 0xf4
    then (3, 0x80, 0x8f)
    else (3, 0x80, 0xbf)

abbrev is_first_byte : ℕ → Bool
is_first_byte c = (ltb 0 c && ltb c 0x80) || (leb 0xc2 c && leb c 0xf4)

-- With so many bytes of a character to come, the next one between the bounds.
abbrev is_encoded_from : ℕ → ℕ → ℕ → Text → Bool
is_encoded_from zero low high [] = true
is_encoded_from (suc n) low high [] = false
is_encoded_from zero low high (c ∷ s) =
    let (n, next_low, next_high) = character_rest c in
    let rest = is_encoded_from n next_low next_high s in is_first_byte c && rest
is_encoded_from (suc n) low high (c ∷ s) =
    let rest = is_encoded_from n 0x80 0xbf s in leb low c && leb c high && rest

-- Whether PostgreSQL takes a text for a parameter: it is UTF-8, and no byte is NUL.
unfoldable pub is_encoded : Text → Bool
is_encoded s = is_encoded_from 0 0x80 0xbf s

-- A statement is refused before it runs if a text of its parameters is not encoded.
abbrev pub bound : {A : Type 0} → Bool → Exec Database A → Exec Database A
bound encoded run d = if encoded then run d else (err (pg_error "22021"), d)

-- The number of the characters of a UTF-8 text.
unfoldable pub char_count : Text → ℕ
char_count [] = 0
char_count (c ∷ s) = (if ltb c 0x80 || ltb 0xbf c then 1 else 0) + char_count s
