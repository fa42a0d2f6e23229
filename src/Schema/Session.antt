-- ===== src/Schema/Session.antt =====
-- The types of src/auth/auth.constants.ts: sessions and sign-in with a provider.
use chatwave_backend.Base.{ℕ, Option}
use chatwave_backend.Base.Text.{Text}

pub data OAuthProvider : Type 0 where
  google github : OAuthProvider

pub data SessionPlatform : Type 0 where
  web android ios : SessionPlatform

pub record SessionMeta : Type 0 where
  pub user_agent : Text
  pub ip : Text
  pub platform : SessionPlatform

pub record SessionRecord : Type 0 where
  pub user : ℕ
  pub created_at : ℕ
  pub last_active_at : ℕ
  pub user_agent : Text
  pub ip : Text
  pub platform : SessionPlatform
  pub device : Text
  pub browser : Text
  pub city : Text
  pub country : Text

pub record OAuthProfile : Type 0 where
  pub provider : OAuthProvider
  pub provider_id : Text
  pub email : Text
  pub name : Text
  pub photo_url : Option Text
