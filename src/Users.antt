-- ===== src/Users.antt =====
-- Reads of the users by other services (src/users/users.service.ts) and src/users/users.constants.ts.
pub mod Presence
pub mod Names
pub mod Store
pub mod Accounts
pub mod Closing
pub mod Signup
pub mod Live
pub mod Viewers
pub mod Naming
pub mod Unique
pub mod Profiles
pub mod Private
use chatwave_backend.Base.{
  ℕ, ◌+◌, ◌%◌, Bool, true, false, ◌||◌, not, Option, none, some, List, [], ◌∷◌, ◌==◌, is_some,
  filter, any, mem, length, if◌then◌else◌, take,
}
use chatwave_backend.Base.Rows.{find_row}
use chatwave_backend.Base.Text.{Text, text, words}
use chatwave_backend.Env.{Env}
use chatwave_backend.Schema.User.{User, UserStatus, active, banned}
use chatwave_backend.World.State.{Action, gets}
use chatwave_backend.World.Effects.{user_id}

abbrev pub is_banned : UserStatus → Bool
is_banned banned = true
is_banned active = false

unfoldable pub is_managed_user_hidden : User → Bool
is_managed_user_hidden u = is_banned u.status || is_some u.deleted_at

abbrev pub visible_user : Option User → Option User
visible_user none = none
visible_user (some u) = if is_managed_user_hidden u then none else some u

unfoldable pub find_by_id : ℕ → Action (Option User)
unfolding gets
find_by_id id = gets (λ w. find_row user_id id w.users)

unfoldable pub find_active_by_id : ℕ → Action (Option User)
unfolding gets is_managed_user_hidden
find_active_by_id id = gets (λ w. visible_user (find_row user_id id w.users))

unfoldable pub find_by_ids : List ℕ → Action (List User)
unfolding gets
find_by_ids ids = gets (λ w. filter (λ u. mem u.id ids) w.users)

-- `people.length !== ids.length || people.some((u) => u.status !== 'active' || u.deletedAt)`
unfoldable pub some_unavailable : List ℕ → List User → Bool
some_unavailable ids people =
    not (length people == length ids)
    || any (λ u. is_banned u.status || is_some u.deleted_at) people

abbrev first_two : List Text → Text
first_two ((a ∷ r) ∷ (b ∷ s) ∷ ws) = a ∷ b ∷ []
first_two (w ∷ ws) = take 2 w
first_two [] = text "CW"

unfoldable pub initials_from_name : Env → Text → Text
unfolding words
initials_from_name env name = env.upper (first_two (words name))

unfoldable pub tone_from_name : Text → Text
tone_from_name name = (b'a' + length name % 6) ∷ []
