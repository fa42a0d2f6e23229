-- ===== src/Users/Profiles.antt =====
-- What one user sees of others: `toPublic` and the searches and lists of src/users/users.service.ts,
-- with `getLivePresenceMany` of src/common/redis/redis.service.ts. `matches query s` is the test of the
-- case-insensitive RegExp of the escaped query, and `by_name` is the database's sort on `name`.
use chatwave_backend.Base.{
  String, ℕ, Bool, true, false, ◌&&◌, ◌||◌, not, Option, none, some, List, [], ◌∷◌, map, ◌==◌,
  if◌then◌else◌, is_none, filter, find, take, mem, min, max, head?,
}
use chatwave_backend.Base.Text.{Text, text_eq, trim, is_empty}
use chatwave_backend.Env.{Env, is_mongo_id}
use chatwave_backend.Schema.User.{User, Presence, online, away, offline, AuthViewer}
use chatwave_backend.World.State.{
  World, Action, pure, gets, modify, ◌>>=◌, ◌>>◌, throw_if, or_throw, branch, not_found, throw,
  bad_request,
}
use chatwave_backend.Users.{find_by_id, is_banned, is_managed_user_hidden}
use chatwave_backend.Users.Presence.{
  live_presence, get_live_presence, or_offline, list_online, prune_online,
}
use chatwave_backend.Blocks.Restricted.{restricted_ids}

-- Whom a request names: `userId`, else `username`.
pub data Named : Type 0 where
  by_id : (user : ℕ) → Named
  by_username : (username : Text) → Named
  by_nothing : Named

-- `PublicUser` of src/users/users.constants.ts, with `sub` as its parts
pub record PublicUser : Type 0 where
  pub id : ℕ
  pub name : Text
  pub username : Text
  pub initials : Text
  pub tone : Text
  pub photo_url : Option Text
  pub role : Text
  pub location : Text
  pub presence : Presence
  pub last_seen_at : Option ℕ
  pub sub : List Text

abbrev pub filled_texts : List Text → List Text
filled_texts ts = filter (λ t. not (is_empty t)) ts

abbrev is_hidden : Option Bool → Bool
is_hidden (some false) = true
is_hidden _ = false

-- `hideSeen`
unfoldable pub hides_seen : ℕ → User → Bool
hides_seen viewer u = not (viewer == u.id) && is_hidden u.settings.show_last_seen

unfoldable pub to_public : AuthViewer → User → Presence → PublicUser
unfolding hides_seen
to_public viewer u presence =
    let hide = hides_seen viewer.id u in
    record {
      id = u.id;
      name = u.name;
      username = u.username;
      initials = u.initials;
      tone = u.tone;
      photo_url = u.photo_url;
      role = u.role;
      location = u.location;
      presence = if hide then offline else presence;
      last_seen_at = if hide then none else u.last_seen_at;
      sub = filled_texts (u.role ∷ u.location ∷ []);
    }

-- `publicUser`, whose presence is asked for
unfoldable pub public_user : AuthViewer → User → Action PublicUser
public_user viewer u = do
  found ← get_live_presence u.id
  pure (to_public viewer u (or_offline found))

-- `getLivePresenceMany`, which leaves the set `online_users` as it is
unfoldable pub live_of : World → ℕ → Presence
live_of w user = or_offline (live_presence w.now user w.presences)

unfoldable pub public_users : AuthViewer → List User → World → List PublicUser
unfolding live_of
public_users viewer us w = map (λ u. to_public viewer u (live_of w u.id)) us

-- `visiblePublic`
unfoldable pub visible_public : AuthViewer → Option User → Action PublicUser
visible_public viewer found = do
  u ← or_throw found (not_found "User not found")
  throw_if (not (viewer.id == u.id) && not viewer.is_owner && is_managed_user_hidden u)
      (not_found "User not found")
  public_user viewer u

abbrev pub is_listed_user : User → Bool
is_listed_user u = not (is_banned u.status) && is_none u.deleted_at

-- `q?.trim()`
abbrev query_of : Option Text → Text
query_of none = []
query_of (some q) = trim q

abbrev pub at_most : ℕ → ℕ → ℕ → ℕ
at_most limit default cap = min (max (if limit == 0 then default else limit) 1) cap

abbrev pub is_live : Presence → Bool
is_live online = true
is_live away = true
is_live offline = false

abbrev pub same_presence : Presence → Presence → Bool
same_presence online online = true
same_presence away away = true
same_presence offline offline = true
same_presence _ _ = false

abbrev pub has_presence : Option Presence → PublicUser → Bool
has_presence none p = true
has_presence (some x) p = same_presence p.presence x

-- `username.replace(/^@/, '')`
abbrev pub without_at : Text → Text
without_at [] = []
without_at (c ∷ s) = if c == 64 then s else c ∷ s

module _ (env : Env) where
  unfoldable pub get_public_by_id : AuthViewer → ℕ → Action PublicUser
  get_public_by_id viewer id = do
    throw_if (not (is_mongo_id env id)) (not_found "User not found")
    found ← find_by_id id
    visible_public viewer found

  abbrev pub with_username : Text → World → Option User
  with_username name w = find (λ u. text_eq u.username name) w.users

  unfoldable pub get_public_by_username : AuthViewer → Text → Action PublicUser
  get_public_by_username viewer username = do
    found ← gets (with_username (env.lower (without_at username)))
    visible_public viewer found

  -- `findByUsername`
  unfoldable pub find_by_username : Text → Action (Option User)
  find_by_username username = gets (with_username (trim (env.lower (without_at username))))

  -- the person that the DTO of a block or of a contact names, with the error where it names nobody
  unfoldable pub find_named : String → Named → Action (Option User)
  find_named nobody (by_id user) = branch (not (is_mongo_id env user)) (pure none) (find_by_id user)
  find_named nobody (by_username username) = find_by_username username
  find_named nobody by_nothing = throw (bad_request nobody)

  -- `listOnlineUserIds`
  unfoldable pub list_online_ids : Action (List ℕ)
  list_online_ids = do
    ids ← gets (λ w. list_online w.now w.presences)
    modify (λ w. record w { presences = prune_online w.now w.presences })
    pure ids

  abbrev is_candidate : List ℕ → User → Bool
  is_candidate ids u = mem u.id ids && is_listed_user u

  abbrev is_shown : List ℕ → User → Bool
  is_shown skip u = not (is_managed_user_hidden u) && not (mem u.id skip)

  -- `listOnline`; without a live user there is no query.
  unfoldable pub list_online_users : AuthViewer → Action (List PublicUser)
  list_online_users viewer = do
    all ← list_online_ids
    let ids = filter (λ id. not (id == viewer.id) && is_mongo_id env id) all
    branch (is_none (head? ids)) (pure []) do
      rows ← gets (λ w. filter (is_candidate ids) w.users)
      skip ← restricted_ids env viewer.id
      users ← gets (public_users viewer (filter (is_shown skip) rows))
      pure (filter (λ p. is_live p.presence) users)

  module _ (matches : Text → Text → Bool) (by_name : List User → List User) where
    abbrev matches_user : Bool → Text → User → Bool
    matches_user with_email q u =
        is_empty q || matches q u.name || matches q u.username || (with_email && matches q u.email)

    -- `search`
    unfoldable pub search :
        AuthViewer → Option Text → Option Presence → ℕ → Action (List PublicUser)
    search viewer q presence limit = do
      let most = at_most limit 20 50
      let query = query_of q
      rows ← gets (λ w. take most (
          filter
            (λ u.
              not (u.id == viewer.id) && is_listed_user u && matches_user viewer.is_owner query u)
            w.users))
      skip ← restricted_ids env viewer.id
      users ← gets (public_users viewer (filter (is_shown skip) rows))
      pure (take most (filter (has_presence presence) users))

    -- The users whom the query of `findDiscoverable` leaves: with a live presence asked for, the filter
    -- on `_id` is replaced by the ids that are online.
    abbrev discoverable_in : List ℕ → Option (List ℕ) → User → Bool
    discoverable_in excluded none u = not (mem u.id excluded)
    discoverable_in excluded (some ids) u = mem u.id ids

    abbrev asks_live : Option Presence → Bool
    asks_live none = false
    asks_live (some p) = is_live p

    abbrev rows_for : ℕ → Text → List ℕ → Option (List ℕ) → World → List User
    rows_for most query excluded ids w = take most (
        by_name (
          filter
            (λ u. discoverable_in excluded ids u && is_listed_user u && matches_user false query u)
            w.users))

    abbrev cut : Option Presence → ℕ → List PublicUser → List PublicUser
    cut none most users = users
    cut (some p) most users = take most (filter (has_presence (some p)) users)

    unfoldable pub discover :
        AuthViewer
        → Text
        → Option Presence
        → ℕ
        → List ℕ
        → Option (List ℕ)
        → Action (List PublicUser)
    discover viewer query presence most excluded ids = do
      rows ← gets (rows_for most query excluded ids)
      users ← gets (public_users viewer (filter (is_shown excluded) rows))
      pure (cut presence most users)

    -- `findDiscoverable`, as `list` of src/contacts/contacts.service.ts calls it
    unfoldable pub find_discoverable :
        AuthViewer → Option Text → Option Presence → ℕ → Action (List PublicUser)
    find_discoverable viewer q presence limit = do
      let most = at_most limit 50 500
      skip ← restricted_ids env viewer.id
      let excluded = viewer.id ∷ skip
      branch (not (asks_live presence)) (discover viewer (query_of q) presence most excluded none)
          do
            all ← list_online_ids
            let ids = filter (λ id. not (mem id excluded) && is_mongo_id env id) all
            branch (is_none (head? ids)) (pure [])
                (discover viewer (query_of q) presence most excluded (some ids))
