-- ===== src/Auth/OAuth.antt =====
-- Sign-in by a provider, and linking one (src/auth/auth.service.ts).
use chatwave_backend.Base.{ℕ, Bool, true, false, Option, none, some, []}
use chatwave_backend.Base.Text.{Text, text, is_empty}
use chatwave_backend.Env.{Env}
use chatwave_backend.Schema.User.{User}
use chatwave_backend.Schema.Session.{OAuthProvider, google, github, OAuthProfile}
use chatwave_backend.Schema.Notification.{signup}
use chatwave_backend.World.State.{
  Action, pure, gets, ◌>>=◌, ◌>>◌, throw_if, or_throw, on_some, branch, oauth_flow,
}
use chatwave_backend.Audit.{log}
use chatwave_backend.Users.{find_active_by_id}
use chatwave_backend.Users.Signup.{
  find_by_email, find_by_provider, provider_taken, create_oauth_user, apply_oauth, email_key,
}
use chatwave_backend.Auth.Devices.{or_text}
use chatwave_backend.Auth.Codes.{consume_oauth_link}
use chatwave_backend.Auth.Service.{assert_allowed, session_of, taken_message}

module _ (env : Env) where
  unfoldable pub user_from_request : Option ℕ → Action (Option User)
  user_from_request cookie =
      on_some cookie none
        λ id. do found ← gets (session_of id); on_some found none λ row. find_active_by_id row.user

  unfoldable pub link_provider : ℕ → OAuthProfile → Action User
  link_provider user profile = do
    row ← or_throw (← find_active_by_id user) (oauth_flow "Please sign in again")
    assert_allowed row
    taken ← provider_taken env profile.provider profile.provider_id row.id
    throw_if taken (oauth_flow (taken_message profile.provider))
    apply_oauth env row profile

  abbrev same_provider : OAuthProvider → Option OAuthProvider → Bool
  same_provider google (some google) = true
  same_provider github (some github) = true
  same_provider _ _ = false

  -- whether the request is one to link a provider to the user who is signed in
  unfoldable pub link_intent : Option User → OAuthProvider → Action Bool
  link_intent signed_in provider =
      on_some signed_in false
        λ u. do intent ← consume_oauth_link u.id; pure (same_provider provider intent)

  abbrev first_of : Option User → Option User → Option User
  first_of none u = u
  first_of (some u) _ = some u

  unfoldable pub sign_in_known : User → OAuthProfile → Action User
  sign_in_known row profile = do assert_allowed row; apply_oauth env row profile

  unfoldable pub sign_up_oauth : Text → OAuthProfile → Action User
  sign_up_oauth email profile = do
    row ←
        create_oauth_user env (or_text profile.name email) email profile.photo_url profile.provider
          profile.provider_id
    log row.id none signup (text "Joined ChatWave") []
    pure row

  unfoldable pub sign_in_oauth : Option User → Text → OAuthProfile → Action User
  sign_in_oauth (some row) email profile = sign_in_known row profile
  sign_in_oauth none email profile = sign_up_oauth email profile

  abbrev id_of : Option User → ℕ
  id_of none = 0
  id_of (some u) = u.id

  unfoldable pub upsert_oauth_user : Option ℕ → OAuthProfile → Action User
  upsert_oauth_user cookie profile = do
    let email = email_key env profile.email
    throw_if (is_empty email) (oauth_flow "This provider did not share an email address")
    signed_in ← user_from_request cookie
    links ← link_intent signed_in profile.provider
    branch links (link_provider (id_of signed_in) profile) do
      by_id ← find_by_provider env profile.provider profile.provider_id
      by_email ← find_by_email env email
      sign_in_oauth (first_of by_id by_email) email profile
