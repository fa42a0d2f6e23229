-- ===== src/Contacts/Lists.antt =====
-- The lists of src/contacts/contacts.service.ts: whom a user may follow, whom they follow, and whom they
-- chat with but do not follow. `by_name` is the database's sort on `name`, `by_label` the sort of
-- `localeCompare` on the names.
use chatwave_backend.Base.{
  ℕ, Bool, true, false, ◌&&◌, ◌||◌, not, Option, none, some, List, [], ◌∷◌, map, ◌==◌,
  if◌then◌else◌, is_none, head?, filter, mem, take, length,
}
use chatwave_backend.Base.Rows.{find_row}
use chatwave_backend.Base.Text.{Text, trim, is_empty}
use chatwave_backend.Env.{Env}
use chatwave_backend.Schema.User.{User, Presence, AuthViewer}
use chatwave_backend.Schema.Block.{Contact}
use chatwave_backend.World.State.{World, Action, pure, gets, ◌>>=◌, branch}
use chatwave_backend.World.Effects.{user_id}
use chatwave_backend.Auth.Devices.{includes}
use chatwave_backend.Users.{find_by_ids, is_managed_user_hidden}
use chatwave_backend.Users.Profiles.{PublicUser, find_discoverable, same_presence}
use chatwave_backend.Blocks.Restricted.{restricted_ids}
use chatwave_backend.Conversations.Peers.{direct_ids_for, direct_of, list_direct_peer_ids}
use chatwave_backend.Contacts.Notes.{derived_note}
use chatwave_backend.Contacts.Service.{ContactDto, dto_of, to_dto, followed_ids}

pub record ContactList : Type 0 where
  pub contacts : List ContactDto
  pub total : ℕ
  pub online_count : ℕ

abbrev is_online : ContactDto → Bool
is_online c = same_presence c.presence Presence.online

module _ (env : Env) (month_day : ℕ → Text) (matches : Text → Text → Bool)
    (by_name : List User → List User) (by_label : List ContactDto → List ContactDto) where
  -- `fromPublic`, and the link to the chat with one who is followed
  abbrev from_public : ℕ → List ℕ → List (ℕ × ℕ) → PublicUser → ContactDto
  from_public now following directs p =
      dto_of (derived_note month_day now [] p p.presence) p (direct_of p.id directs)
        (mem p.id following)

  abbrev followed_people : List ℕ → List PublicUser → List ℕ
  followed_people following people = map (λ p. p.id) (filter (λ p. mem p.id following) people)

  abbrev list_of : List ContactDto → ContactList
  list_of contacts = record {
    contacts = contacts;
    total = length contacts;
    online_count = length (filter is_online contacts);
  }

  unfoldable pub list : AuthViewer → Option Text → Option Presence → ℕ → Action ContactList
  list viewer q presence limit = do
    following ← gets (followed_ids viewer.id)
    people ← find_discoverable env matches by_name viewer q presence limit
    directs ← gets (direct_ids_for env viewer.id (followed_people following people))
    now ← gets (λ w. w.now)
    pure (list_of (map (from_public now following directs) people))

  -- The people of the user's rows who are to be seen, in the order of the rows.
  abbrev visible_row : ℕ → List ℕ → List User → Contact → List (User × Text)
  visible_row viewer skip people row = elim (find_row user_id row.person people) [
    | none ↦ []
    | some u ↦
        if u.id == viewer || is_managed_user_hidden u || mem u.id skip
        then []
        else (u, row.note) ∷ []
  ]

  abbrev visible_rows : ℕ → List ℕ → List User → List Contact → List (User × Text)
  visible_rows viewer skip people [] = []
  visible_rows viewer skip people (row ∷ rows) =
      chatwave_backend.Base.◌++◌ (visible_row viewer skip people row)
        (visible_rows viewer skip people rows)

  -- `Promise.all(items.map((item) => toDto(…)))`
  abbrev pub dtos : AuthViewer → List (ℕ × ℕ) → List (User × Text) → Action (List ContactDto)
  dtos viewer directs [] = pure []
  dtos viewer directs ((u, note) ∷ items) = do
    dto ← to_dto env month_day viewer u note (direct_of u.id directs)
    rest ← dtos viewer directs items
    pure (dto ∷ rest)

  abbrev own_rows : ℕ → World → List Contact
  own_rows owner w = filter (λ c. c.owner == owner) w.contacts

  unfoldable pub visible_contacts : AuthViewer → Action (List ContactDto)
  visible_contacts viewer = do
    rows ← gets (own_rows viewer.id)
    people ← find_by_ids (map (λ c. c.person) rows)
    skip ← restricted_ids env viewer.id
    let items = visible_rows viewer.id skip people rows
    directs ← gets (direct_ids_for env viewer.id (map (λ i. i.0.id) items))
    dtos viewer directs items

  abbrev lower_query : Option Text → Text
  lower_query none = []
  lower_query (some q) = env.lower (trim q)

  abbrev matches_item : Text → ContactDto → Bool
  matches_item query c =
      is_empty query || includes (env.lower c.name) query || includes (env.lower c.username) query

  abbrev has_item_presence : Option Presence → ContactDto → Bool
  has_item_presence none c = true
  has_item_presence (some p) c = same_presence c.presence p

  unfoldable pub list_following : AuthViewer → Option Text → Option Presence → Action ContactList
  list_following viewer q presence = do
    items ← visible_contacts viewer
    let matching = filter (matches_item (lower_query q)) items
    pure (record {
      contacts = by_label (filter (has_item_presence presence) matching);
      total = length items;
      online_count = length (filter is_online items);
    })

  abbrev is_suggested : ℕ → List ℕ → User → Bool
  is_suggested viewer skip u =
      not (u.id == viewer) && not (is_managed_user_hidden u) && not (mem u.id skip)

  abbrev with_no_note : User → User × Text
  with_no_note u = (u, [])

  unfoldable pub suggestions : AuthViewer → Action (List ContactDto)
  suggestions viewer = do
    peers ← gets (list_direct_peer_ids viewer.id)
    branch (is_none (head? peers)) (pure []) do
      have ← gets (followed_ids viewer.id)
      let missing = take 10 (filter (λ id. not (id == viewer.id) && not (mem id have)) peers)
      skip ← restricted_ids env viewer.id
      people ← find_by_ids missing
      items ← dtos viewer [] (map with_no_note (filter (is_suggested viewer.id skip) people))
      pure (by_label items)
