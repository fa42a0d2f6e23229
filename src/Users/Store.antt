-- ===== src/Users/Store.antt =====
-- How src/users/users.service.ts loads and saves a row, with the unique indexes of the collection.
use chatwave_backend.Base.{
  ℕ, Bool, false, ◌&&◌, ◌||◌, not, Option, some, List, [], ◌∷◌, ◌++◌, ◌==◌, any, update_first,
}
use chatwave_backend.Base.Text.{Text, text_eq}
use chatwave_backend.Schema.User.{User}
use chatwave_backend.Schema.Session.{OAuthProvider, google, github}
use chatwave_backend.World.State.{
  World, Action, pure, gets, modify, ◌>>=◌, ◌>>◌, throw_if, or_throw, conflict, unauthorized,
  database_error,
}
use chatwave_backend.Users.{find_active_by_id}

-- `findByIdAndUpdate`
unfoldable pub update_user : ℕ → (User → User) → World → World
update_user id f w = record w { users = update_first (λ u. u.id == id) f w.users }

abbrev pub is_other : ℕ → User → Bool
is_other id u = not (u.id == id)

abbrev pub same_text : Option Text → Option Text → Bool
same_text (some s) (some t) = text_eq s t
same_text _ _ = false

abbrev pub provider_id : OAuthProvider → User → Option Text
provider_id google u = u.google_id
provider_id github u = u.github_id

-- `taken({ username }, exceptId)`
abbrev pub other_has_username : ℕ → Text → List User → Bool
other_has_username id name users = any (λ u. is_other id u && text_eq u.username name) users

abbrev other_has_email : ℕ → Text → List User → Bool
other_has_email id email users = any (λ u. is_other id u && text_eq u.email email) users

abbrev other_has_provider : OAuthProvider → User → List User → Bool
other_has_provider p row users =
    any (λ u. is_other row.id u && same_text (provider_id p u) (provider_id p row)) users

-- The unique indexes of the collection, with `throwDuplicate`.
unfoldable pub assert_unique : User → Action (Unit {0})
assert_unique row = do
  users ← gets (λ w. w.users)
  throw_if (other_has_username row.id row.username users)
      (conflict "That username is already taken")
  throw_if (other_has_email row.id row.email users)
      (conflict "An account with this email already exists")
  throw_if (other_has_provider google row users || other_has_provider github row users)
      (database_error "E11000 duplicate key")

-- `save`
unfoldable pub save_user : (User → User) → User → Action User
save_user change row = do
  assert_unique (change row)
  modify (update_user row.id change)
  pure (change row)

-- `create`
unfoldable pub create_user : User → Action User
create_user row = do
  assert_unique row
  modify (λ w. record w { users = w.users ++ row ∷ [] })
  pure row

unfoldable pub require_active : ℕ → Action User
require_active id = do
  found ← find_active_by_id id
  or_throw found (unauthorized "Please sign in again")
