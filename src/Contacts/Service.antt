-- ===== src/Contacts/Service.antt =====
-- The handlers of src/contacts/contacts.service.ts that change a row, with `toDto`. The links of a
-- DTO are left out but for the chat's, which is the chat's id.
use chatwave_backend.Base.{
  ℕ, Bool, true, false, ◌||◌, not, Option, none, some, List, [], ◌∷◌, ◌++◌, map, ◌==◌, is_none,
  find, filter, update_first,
}
use chatwave_backend.Base.Text.{Text, trim}
use chatwave_backend.Env.{Env, is_mongo_id}
use chatwave_backend.Schema.User.{User, Presence, AuthViewer}
use chatwave_backend.Schema.Block.{Contact}
use chatwave_backend.World.State.{
  World, Action, pure, gets, modify, ◌>>=◌, ◌>>◌, throw_if, or_throw, bad_request, forbidden,
  not_found,
}
use chatwave_backend.Users.{find_by_id, is_managed_user_hidden}
use chatwave_backend.Users.Profiles.{PublicUser, public_user, Named, by_id, find_named}
use chatwave_backend.Blocks.Queries.{assert_not_blocked}
use chatwave_backend.Blocks.Service.{is_contact}
use chatwave_backend.Conversations.Service.{create_direct}
use chatwave_backend.Conversations.Peers.{direct_ids_for, direct_of}
use chatwave_backend.Contacts.Notes.{derived_note}

pub record ContactDto : Type 0 where
  pub id : ℕ
  pub name : Text
  pub username : Text
  pub initials : Text
  pub tone : Text
  pub photo_url : Option Text
  pub presence : Presence
  pub note : Text
  pub chat : Option ℕ
  pub following : Bool

abbrev pub dto_of : Text → PublicUser → Option ℕ → Bool → ContactDto
dto_of note p chat following = record {
  id = p.id;
  name = p.name;
  username = p.username;
  initials = p.initials;
  tone = p.tone;
  photo_url = p.photo_url;
  presence = p.presence;
  note = note;
  chat = chat;
  following = following;
}

unfoldable pub find_contact : ℕ → ℕ → World → Option Contact
find_contact owner person w = find (is_contact owner person) w.contacts

unfoldable pub create_contact : ℕ → ℕ → Text → World → World
create_contact owner person note w = record w {
  contacts = w.contacts ++ record { owner = owner; person = person; note = note } ∷ [];
}

unfoldable pub set_note : ℕ → ℕ → Text → World → World
set_note owner person note w = record w {
  contacts = update_first (is_contact owner person) (λ c. record c { note = note }) w.contacts;
}

abbrev text_or_empty : Option Text → Text
text_or_empty none = []
text_or_empty (some t) = trim t

module _ (env : Env) (month_day : ℕ → Text) where
  abbrev chat_or : Option ℕ → ℕ → ℕ → World → Option ℕ
  chat_or (some id) viewer person w = some id
  chat_or none viewer person w = direct_of person (direct_ids_for env viewer (person ∷ []) w)

  -- `toDto`; `chat` is the `conversationId` that the caller has, if any.
  unfoldable pub to_dto : AuthViewer → User → Text → Option ℕ → Action ContactDto
  to_dto viewer person saved chat = do
    profile ← public_user viewer person
    now ← gets (λ w. w.now)
    link ← gets (chat_or chat viewer.id person.id)
    pure (dto_of (derived_note month_day now saved profile profile.presence) profile link true)

  -- The insertion meets no duplicate, since no other handler runs in between.
  abbrev keep_or_create : ℕ → ℕ → Text → Option Contact → Action (Bool × Text)
  keep_or_create owner person note (some row) = pure (false, row.note)
  keep_or_create owner person note none = do
    modify (create_contact owner person note)
    pure (true, note)

  unfoldable pub save_contact : ℕ → ℕ → Text → Action (Bool × Text)
  save_contact owner person note = do
    found ← gets (find_contact owner person)
    keep_or_create owner person note found

  unfoldable pub add : AuthViewer → Named → Option Text → Action (Bool × ContactDto)
  add viewer named note = do
    person ← or_throw (← find_named env "Pick someone to follow" named) (not_found "User not found")
    throw_if (person.id == viewer.id) (bad_request "You cannot follow yourself")
    throw_if (is_managed_user_hidden person) (forbidden "That account is not available")
    assert_not_blocked env viewer.id person.id
        "You can't add this person. One of you has blocked the other."
    (created, saved) ← save_contact viewer.id person.id (text_or_empty note)
    (opened, detail) ← create_direct env viewer person.id
    dto ← to_dto viewer person saved (some detail.id)
    pure (created, dto)

  -- `follow`
  unfoldable pub follow : AuthViewer → ℕ → Action (Bool × ContactDto)
  unfolding add
  follow viewer person = add viewer (by_id person) none

  abbrev hidden_or_self : ℕ → User → Bool
  hidden_or_self viewer u = u.id == viewer || is_managed_user_hidden u

  unfoldable pub update_note : AuthViewer → ℕ → Text → Action ContactDto
  update_note viewer id note = do
    throw_if (not (is_mongo_id env id)) (not_found "Contact not found")
    person ← or_throw (← find_by_id id) (not_found "Contact not found")
    throw_if (hidden_or_self viewer.id person) (not_found "Contact not found")
    found ← gets (find_contact viewer.id person.id)
    throw_if (is_none found) (not_found "Contact not found")
    modify (set_note viewer.id person.id (trim note))
    to_dto viewer person (trim note) none

  -- `openChat`: the id of the chat
  unfoldable pub open_chat : AuthViewer → ℕ → Action ℕ
  open_chat viewer person = do (opened, detail) ← create_direct env viewer person; pure detail.id

-- `followedIds`
unfoldable pub followed_ids : ℕ → World → List ℕ
followed_ids owner w = map (λ c. c.person) (filter (λ c. c.owner == owner) w.contacts)
