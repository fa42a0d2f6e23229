-- ===== src/Users/Signup.antt =====
-- The accounts that src/users/users.service.ts finds by address and by provider, and creates.
use chatwave_backend.Base.{
  ℕ, ◌+◌, Bool, true, false, ◌&&◌, Option, none, some, List, [], ◌∷◌, if◌then◌else◌, is_some,
  is_none, or_else, find, any,
}
use chatwave_backend.Base.Text.{Text, text_eq, trim}
use chatwave_backend.Env.{Env}
use chatwave_backend.Schema.User.{User, active, offline}
use chatwave_backend.Schema.Session.{OAuthProvider, google, github, OAuthProfile}
use chatwave_backend.World.State.{Action, pure, gets, ◌>>=◌}
use chatwave_backend.World.Effects.{fresh_id}
use chatwave_backend.Settings.Merge.{default_settings}
use chatwave_backend.Users.{initials_from_name}
use chatwave_backend.Users.Names.{username_from_email, unique_username}
use chatwave_backend.Users.Store.{is_other, same_text, provider_id, save_user, create_user}
use chatwave_backend.Users.Accounts.{filled}

module _ (env : Env) where
  -- `email.toLowerCase().trim()`
  abbrev pub email_key : Text → Text
  email_key email = trim (env.lower email)

  unfoldable pub find_by_email : Text → Action (Option User)
  find_by_email email = gets (λ w. find (λ u. text_eq u.email (email_key email)) w.users)

  unfoldable pub find_by_provider : OAuthProvider → Text → Action (Option User)
  find_by_provider p id = gets (λ w. find (λ u. same_text (provider_id p u) (some id)) w.users)

  unfoldable pub provider_taken : OAuthProvider → Text → ℕ → Action Bool
  provider_taken p id except =
      gets (λ w. any (λ u. is_other except u && same_text (provider_id p u) (some id)) w.users)

  abbrev no_one : List User → Bool
  no_one [] = true
  no_one (u ∷ us) = false

  -- `baseAccount`, as the row that the defaults of the schema complete
  unfoldable pub base_account : Text → Text → Action User
  base_account name email = do
    let trimmed = trim name
    username ← unique_username env (username_from_email env email)
    seed ← fresh_id
    first ← gets (λ w. no_one w.users)
    id ← fresh_id
    now ← gets (λ w. w.now)
    pure (record {
      id = id;
      name = trimmed;
      email = email_key email;
      username = username;
      password_hash = none;
      initials = initials_from_name env trimmed;
      tone = (b'a' + env.random_below seed 6) ∷ [];
      photo_url = none;
      photo_public_id = none;
      role = [];
      location = [];
      is_owner = first;
      presence = offline;
      last_seen_at = none;
      status = active;
      deleted_at = none;
      google_id = none;
      github_id = none;
      email_verified_at = none;
      settings = default_settings;
      created_at = now;
    })

  unfoldable pub create_local_user : Text → Text → Text → Action User
  create_local_user name email hash = do
    row ← base_account name email
    create_user (record row { password_hash = some hash })

  abbrev with_provider : OAuthProvider → Text → User → User
  with_provider google id u = record u { google_id = some id }
  with_provider github id u = record u { github_id = some id }

  unfoldable pub create_oauth_user : Text → Text → Option Text → OAuthProvider → Text → Action User
  create_oauth_user name email photo p id = do
    row ← base_account name email
    now ← gets (λ w. w.now)
    create_user
        (with_provider p id (record row { photo_url = photo; email_verified_at = some now }))

  abbrev with_photo : Option Text → User → User
  with_photo photo u =
      if is_none (filled u.photo_url) && is_some (filled photo)
      then record u { photo_url = photo }
      else u

  abbrev verified : ℕ → User → User
  verified now u = record u { email_verified_at = some (or_else u.email_verified_at now) }

  unfoldable pub apply_oauth : User → OAuthProfile → Action User
  apply_oauth row profile = do
    now ← gets (λ w. w.now)
    save_user
        (λ u.
          verified now
            (with_photo profile.photo_url (with_provider profile.provider profile.provider_id u)))
        row
