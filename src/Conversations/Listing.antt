-- ===== src/Conversations/Listing.antt =====
-- `list`, `toListItem` and `peerView` of src/conversations/conversations.service.ts. `by_time` is the
-- database's sort on `lastMessageAt`, newest first. Of `sub` and `status` the parts are kept that are
-- no constant text.
use chatwave_backend.Base.{
  ℕ, Bool, true, false, ◌&&◌, ◌||◌, not, Option, none, some, List, [], ◌∷◌, ◌++◌, map, ◌==◌, ltb,
  if◌then◌else◌, filter, find, take, mem, length,
}
use chatwave_backend.Base.Text.{Text, text, trim, is_empty}
use chatwave_backend.Env.{Env}
use chatwave_backend.Schema.User.{Presence, offline, AuthViewer}
use chatwave_backend.Schema.Conversation.{
  Conversation, ConversationMember, ConversationType, PreviewIcon,
}
use chatwave_backend.World.State.{World, Action, pure, gets, ◌>>=◌}
use chatwave_backend.Users.{find_by_ids, initials_from_name}
use chatwave_backend.Users.Profiles.{PublicUser, public_users, is_live, at_most}
use chatwave_backend.Auth.Devices.{includes, or_text}
use chatwave_backend.Blocks.Restricted.{restricted_ids}
use chatwave_backend.Conversations.Preview.{viewer_preview}
use chatwave_backend.Conversations.Rows.{is_group, active_member, member_user, active_member_ids}

pub data ListFilter : Type 0 where
  all unread groups calls archived : ListFilter

pub record ListItem : Type 0 where
  pub id : ℕ
  pub type : ConversationType
  pub unread : ℕ
  pub pinned : Bool
  pub muted : Bool
  pub archived : Bool
  pub preview : Text
  pub preview_icon : Option PreviewIcon
  pub time : ℕ
  pub name : Text
  pub username : Option Text
  pub initials : Text
  pub tone : Text
  pub photo : Option Text
  pub presence : Presence
  pub members : ℕ  -- of `${n} members`, in a group
  pub online : ℕ

abbrev unknown_peer : ℕ → PublicUser
unknown_peer user = record {
  id = user;
  name = text "ChatWave user";
  username = text "user";
  initials = text "CW";
  tone = text "a";
  photo_url = none;
  role = [];
  location = [];
  presence = offline;
  last_seen_at = none;
  sub = [];
}

-- `peerView`
unfoldable pub peer_view : ℕ → List PublicUser → PublicUser
peer_view user people = elim (find (λ p. p.id == user) people) [
  | none ↦ unknown_peer user
  | some p ↦ p
]

abbrev other_or : ℕ → List ℕ → ℕ
other_or viewer users = elim (find (λ u. not (u == viewer)) users) [ none ↦ viewer | some u ↦ u ]

-- `base`, of a group; a direct chat's fields replace the last ones.
abbrev group_item : Env → ℕ → Conversation → ConversationMember → List PublicUser → ListItem
group_item env viewer row mine people = record {
  id = row.id;
  type = row.type;
  unread = mine.unread_count;
  pinned = mine.pinned;
  muted = mine.muted;
  archived = mine.archived;
  preview = viewer_preview row.preview row.last_message_sender viewer;
  preview_icon = row.preview_icon;
  time = row.last_message_at;
  name = row.name;
  username = none;
  initials = or_text row.initials (initials_from_name env row.name);
  tone = or_text row.tone (text "e");
  photo = row.photo;
  presence = offline;
  members = length (active_member_ids row);
  online = length (filter (λ u. is_live (peer_view u people).presence) (active_member_ids row));
}

abbrev with_peer : PublicUser → ListItem → ListItem
with_peer p item = record item {
  name = p.name;
  username = some p.username;
  initials = p.initials;
  tone = p.tone;
  photo = p.photo_url;
  presence = p.presence;
  members = 0;
  online = 0;
}

-- `toListItem`
unfoldable pub to_list_item :
    Env → ℕ → Conversation → ConversationMember → List PublicUser → ListItem
unfolding peer_view
to_list_item env viewer row mine people =
    let item = group_item env viewer row mine people in
    if is_group row.type
    then item
    else with_peer (peer_view (other_or viewer (active_member_ids row)) people) item

abbrev blocked_peer : ℕ → List ℕ → Option ℕ → Bool
blocked_peer viewer skip none = false
blocked_peer viewer skip (some u) = mem u skip

-- The other side of a direct chat is someone whom a block keeps apart from the viewer.
abbrev pub is_kept_out : ℕ → List ℕ → Conversation → Bool
is_kept_out viewer skip row =
    not (is_group row.type)
    && blocked_peer viewer skip (find (λ u. not (u == viewer)) (active_member_ids row))

-- The loop's tests on the viewer's own member document and on the row.
unfoldable pub passes_list : ListFilter → ℕ → List ℕ → Conversation → ConversationMember → Bool
passes_list archived viewer skip row mine = mine.archived
passes_list unread viewer skip row mine =
    not mine.archived && ltb 0 mine.unread_count && not (is_kept_out viewer skip row)
passes_list groups viewer skip row mine =
    not mine.archived && is_group row.type && not (is_kept_out viewer skip row)
passes_list all viewer skip row mine = not mine.archived && not (is_kept_out viewer skip row)
passes_list calls viewer skip row mine = false

abbrev matches_query : Env → Text → ListItem → Bool
matches_query env query item =
    is_empty query || includes (env.lower (item.name ++ 32 ∷ item.preview)) query

-- Whether `b` is to stand before `a`: `items.sort` on the pin, and then on the time.
abbrev pub goes_before : ListItem → ListItem → Bool
goes_before b a =
    if b.pinned
    then (if a.pinned then ltb a.time b.time else true)
    else if a.pinned
    then false
    else ltb a.time b.time

abbrev pub insert_item : ListItem → List ListItem → List ListItem
insert_item x [] = x ∷ []
insert_item x (y ∷ ys) = if goes_before y x then y ∷ insert_item x ys else x ∷ y ∷ ys

-- A stable sort.
unfoldable pub sort_items : List ListItem → List ListItem
sort_items [] = []
sort_items (x ∷ xs) = insert_item x (sort_items xs)

module _ (env : Env) where
  abbrev item_if : ListFilter → ℕ → List ℕ → Text → List PublicUser → Conversation → List ListItem
  item_if filter viewer skip query people row = elim (active_member row viewer) [
    | none ↦ []
    | some mine ↦
        let item = to_list_item env viewer row mine people in
        if passes_list filter viewer skip row mine && matches_query env query item
        then item ∷ []
        else []
  ]

  unfoldable pub collect :
      ListFilter → ℕ → List ℕ → Text → List PublicUser → List Conversation → List ListItem
  unfolding passes_list to_list_item
  collect filter viewer skip query people [] = []
  collect filter viewer skip query people (row ∷ rows) =
      item_if filter viewer skip query people row ++ collect filter viewer skip query people rows

  abbrev pub people_ids : ℕ → List Conversation → List ℕ
  people_ids viewer [] = viewer ∷ []
  people_ids viewer (row ∷ rows) = active_member_ids row ++ people_ids viewer rows

  -- `peopleViews`
  unfoldable pub people_views : AuthViewer → List Conversation → Action (List PublicUser)
  people_views viewer rows = do
    docs ← find_by_ids (people_ids viewer.id rows)
    gets (public_users viewer docs)

  abbrev pub query_of : Option Text → Text
  query_of none = []
  query_of (some q) = env.lower (trim q)

  module _ (by_time : List Conversation → List Conversation) where
    abbrev pub rows_of : ℕ → World → List Conversation
    rows_of viewer w =
        take 200 (by_time (filter (λ c. mem viewer (map member_user c.members)) w.conversations))

    unfoldable pub list_rows : AuthViewer → ListFilter → Option Text → ℕ → Action (List ListItem)
    unfolding collect sort_items
    list_rows viewer filter q limit = do
      rows ← gets (rows_of viewer.id)
      skip ← restricted_ids env viewer.id
      people ← people_views viewer rows
      pure (
          take (at_most limit 50 100)
            (sort_items (collect filter viewer.id skip (query_of q) people rows)))

    unfoldable pub list : AuthViewer → ListFilter → Option Text → ℕ → Action (List ListItem)
    list viewer calls q limit = pure []
    list viewer filter q limit = list_rows viewer filter q limit
