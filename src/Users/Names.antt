-- ===== src/Users/Names.antt =====
-- The user names of src/users/: `usernameFromEmail`, and the search for a free one.
use chatwave_backend.Base.{
  ℕ, zero, suc, ◌-◌, Bool, true, false, ◌&&◌, ◌||◌, List, [], ◌∷◌, ◌++◌, leb, ltb, ◌==◌,
  if◌then◌else◌, any, filter, length, take,
}
use chatwave_backend.Base.Text.{Text, text, text_eq}
use chatwave_backend.Env.{Env}
use chatwave_backend.Schema.User.{User}
use chatwave_backend.World.State.{Action, gets, pure, branch, ◌>>=◌}
use chatwave_backend.World.Effects.{fresh_id}

-- `[a-z0-9._]`
abbrev pub is_name_unit : ℕ → Bool
is_name_unit c = (leb b'a' c && leb c b'z') || (leb b'0' c && leb c b'9') || c == b'.' || c == b'_'

-- `email.split('@')[0]`
abbrev pub before_at : Text → Text
before_at [] = []
before_at (c ∷ s) = if c == b'@' then [] else c ∷ before_at s

abbrev pub or_user : Text → Text
or_user [] = text "user"
or_user (c ∷ s) = c ∷ s

abbrev pub lengthened : Text → Text
lengthened local = if ltb (length local) 3 then take 24 (local ++ text "user") else local

unfoldable pub username_from_email : Env → Text → Text
username_from_email env email =
    or_user (take 24 (lengthened (filter is_name_unit (env.lower (before_at email)))))

abbrev pub username_taken : Text → List User → Bool
username_taken name users = any (λ u. text_eq u.username name) users

abbrev pub candidate : Text → Text → Text
candidate root extra = take (24 - length extra) root ++ extra

module _ (env : Env) where
  -- `randomBytes(2).toString('hex')`, and nothing in the first round
  unfoldable pub draw_extra : Bool → Action Text
  draw_extra true = pure []
  draw_extra false = do seed ← fresh_id; pure (env.random_hex seed 2)

  -- The loop with the rounds that are left, and whether it is in its first one.
  unfoldable pub search_name : ℕ → Bool → Text → Action Text
  search_name zero first root = do
    now ← gets (λ w. w.now)
    pure (take 16 root ++ env.time_suffix now)
  search_name (suc n) first root = do
    extra ← draw_extra first
    taken ← gets (λ w. username_taken (candidate root extra) w.users)
    branch taken (search_name n false root) (pure (candidate root extra))

  unfoldable pub unique_username : Text → Action Text
  unique_username base = search_name 8 true (take 24 base)
