-- ===== src/Domain.antt =====
-- internal/domain/document.go, user.go and ports.go: the entities that the layers exchange.
-- A Go int64 or int is an integer, a time is a number of seconds, and a pointer that may be nil is
-- an `Option`.
pub mod Pagination
pub mod Status
use api_example.Prelude.{ℕ, String, Bool, true, false, Option, List, str_eq}
use api_example.Prelude.Int.{ℤ}
use api_example.Text.{Text}
use api_example.Domain.Status.{DocumentStatus}

pub record Document : Type 0 where
  pub id : ℤ
  pub owner_id : ℤ
  pub original_name : Text
  pub media_type : Text
  pub size_bytes : ℤ
  pub storage_key : Text
  pub url : Text
  pub checksum_sha256 : Option Text
  pub status : DocumentStatus
  pub processing_error : Option Text
  pub created_at : ℕ
  pub updated_at : ℕ
  pub deleted_at : Option ℕ

pub record NewDocument : Type 0 where
  pub owner_id : ℤ
  pub original_name : Text
  pub media_type : Text
  pub size_bytes : ℤ
  pub storage_key : Text

-- `Role` is a string: a token or a row may hold any.
abbrev pub role_admin : String
role_admin = "admin"

abbrev pub role_user : String
role_user = "user"

pub record User : Type 0 where
  pub id : ℤ
  pub email : Text
  pub password_hash : Text
  pub role : String
  pub is_active : Bool
  pub created_at : ℕ
  pub updated_at : ℕ
  pub deleted_at : Option ℕ

pub record Actor : Type 0 where
  pub user_id : ℤ
  pub role : String

-- `Actor.IsAdmin`
unfoldable pub is_admin : Actor → Bool
is_admin a = str_eq a.role role_admin

pub record RefreshSession : Type 0 where
  pub id : ℤ
  pub user_id : ℤ
  pub token_id : Text
  pub token_hash : Text
  pub expires_at : ℕ
  pub revoked_at : Option ℕ
  pub replaced_by_token_id : Option Text
  pub created_at : ℕ

pub record DocumentJob : Type 0 where
  pub document_id : ℤ
  pub attempt : ℤ

-- `Page[T]`
pub record Page (A : Type 0) : Type 0 where
  pub items : List A
  pub page : ℤ
  pub page_size : ℤ
  pub total_items : ℤ
