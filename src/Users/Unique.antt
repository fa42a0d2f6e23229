-- ===== src/Users/Unique.antt =====
-- What the search for a free user name gives (`uniqueUsername` of src/users/users.service.ts).
use chatwave_backend.Base.{ℕ, ◌≡◌, ◌≤◌, ◌⊎◌, Bool, true, false, [], ◌++◌, length, take}
use chatwave_backend.Base.Text.{Text}
use chatwave_backend.Env.{Env}
use chatwave_backend.World.State.{World, Result, ok}
use chatwave_backend.Users.Names.{username_taken}

-- What a search of names returns: a name of at most 24 characters, and free where it is not the
-- name with the time in it.
pub record Found (env : Env) (root : Text) (w : World) (m : World → Result Text × World)
    : Type 0 where
  pub name : Text
  pub after : World
  pub returns : m w ≡ (ok name, after)
  pub most : length name ≤ 24
  pub users : after.users ≡ w.users
  pub free : (username_taken name w.users ≡ false) ⊎ (name ≡ take 16 root ++ env.time_suffix w.now)

module _ (env : Env) (hex : (seed : ℕ) → length (env.random_hex seed 2) ≡ 4)
    (suffix : (now : ℕ) → length (env.time_suffix now) ≤ 8) where
  extra_of : Bool → World → Text
  extra_of true w = []
  extra_of false w = env.random_hex w.next_id 2
