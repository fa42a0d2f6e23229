-- ===== src/Schema/User.antt =====
-- src/users/user.schema.ts and the types of src/users/users.constants.ts.
use chatwave_backend.Base.{ℕ, Bool, Option}
use chatwave_backend.Base.Text.{Text}
use chatwave_backend.Schema.Settings.{StoredSettings}

pub data UserStatus : Type 0 where
  active banned : UserStatus

pub data Presence : Type 0 where
  online away offline : Presence

pub record User : Type 0 where
  pub id : ℕ
  pub name : Text
  pub email : Text
  pub username : Text
  pub password_hash : Option Text
  pub initials : Text
  pub tone : Text
  pub photo_url : Option Text
  pub photo_public_id : Option Text
  pub role : Text
  pub location : Text
  pub is_owner : Bool
  pub presence : Presence
  pub last_seen_at : Option ℕ
  pub status : UserStatus
  pub deleted_at : Option ℕ
  pub google_id : Option Text  -- `providers.googleId`
  pub github_id : Option Text
  pub email_verified_at : Option ℕ
  pub settings : StoredSettings
  pub created_at : ℕ

-- `AuthViewer` of src/users/users.constants.ts
pub record AuthViewer : Type 0 where
  pub id : ℕ
  pub is_owner : Bool
