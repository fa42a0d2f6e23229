-- ===== src/Blocks/Service.antt =====
-- The handlers of src/blocks/blocks.service.ts, and `remove` of src/contacts/contacts.service.ts, on
-- which they call.
use chatwave_backend.Base.{
  ℕ, Bool, true, false, ◌&&◌, not, Option, none, some, [], ◌∷◌, ◌++◌, ◌==◌, if◌then◌else◌, filter,
  any,
}
use chatwave_backend.Env.{Env, is_mongo_id}
use chatwave_backend.Schema.Block.{Contact}
use chatwave_backend.Schema.User.{User, AuthViewer}
use chatwave_backend.World.State.{
  World, Emit, Action, pure, gets, modify, ◌>>=◌, ◌>>◌, throw_if, or_throw, branch, when,
  bad_request, not_found,
}
use chatwave_backend.World.Effects.{emit}
use chatwave_backend.Users.{is_managed_user_hidden}
use chatwave_backend.Users.Profiles.{Named, find_named}
use chatwave_backend.Blocks.Queries.{is_pair}
use chatwave_backend.Blocks.Restricted.{bust_restricted}
use chatwave_backend.Conversations.Service.{archive_direct_between, hide_direct_if_empty}

abbrev pub is_contact : ℕ → ℕ → Contact → Bool
is_contact owner person c = c.owner == owner && c.person == person

-- `blocks.create(pair(…))`, with the cache busted
unfoldable pub create_block : ℕ → ℕ → World → World
create_block blocker blocked w =
    bust_restricted blocker blocked
      (record w { blocks = w.blocks ++ record { blocker = blocker; blocked = blocked } ∷ [] })

-- `blocks.deleteOne(pair(…))`, with the cache busted
unfoldable pub delete_block : ℕ → ℕ → World → World
delete_block blocker blocked w =
    bust_restricted blocker blocked
      (record w { blocks = filter (λ r. not (is_pair blocker blocked r)) w.blocks })

module _ (env : Env) where
  -- `ContactsService.remove`
  unfoldable pub remove_contact : AuthViewer → ℕ → Bool → Action (Unit {0})
  remove_contact viewer person keep_chat = when (is_mongo_id env person) do
    modify
        (λ w. record w { contacts = filter (λ c. not (is_contact viewer.id person c)) w.contacts })
    when (not keep_chat) (hide_direct_if_empty env viewer.id person >> pure tt)

  unfoldable pub after_block : ℕ → ℕ → Action (Unit {0})
  after_block blocker blocked = do
    remove_contact (record { id = blocker; is_owner = false }) blocked false
    remove_contact (record { id = blocked; is_owner = false }) blocker false
    archive_direct_between env blocker blocked
    emit (Emit.blocked blocker blocked)

  abbrev if_visible : Option User → Option User
  if_visible none = none
  if_visible (some u) = if is_managed_user_hidden u then none else some u

  -- The result is `created`. The insertion meets no duplicate, since no other handler runs in between.
  unfoldable pub add : AuthViewer → Named → Action Bool
  add viewer named = do
    found ← find_named env "Pick someone to block" named
    person ← or_throw (if_visible found) (not_found "User not found")
    throw_if (person.id == viewer.id) (bad_request "You cannot block yourself")
    existing ← gets (λ w. any (is_pair viewer.id person.id) w.blocks)
    branch existing (pure false)
        do modify (create_block viewer.id person.id); after_block viewer.id person.id; pure true

  unfoldable pub remove : AuthViewer → ℕ → Action (Unit {0})
  remove viewer user = when (is_mongo_id env user) (modify (delete_block viewer.id user))
