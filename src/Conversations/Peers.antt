-- ===== src/Conversations/Peers.antt =====
-- The direct chats of a user by their peers: `directIdsFor` and `listDirectPeerIds` of
-- src/conversations/conversations.service.ts.
use chatwave_backend.Base.{
  ℕ, Bool, false, ◌&&◌, not, Option, none, some, List, [], ◌∷◌, ◌++◌, map, ◌==◌, if◌then◌else◌,
  is_some, is_none, filter, find, any, dedup,
}
use chatwave_backend.Base.Text.{Text, text_eq}
use chatwave_backend.Env.{Env, is_mongo_id}
use chatwave_backend.Schema.Conversation.{Conversation}
use chatwave_backend.World.State.{World}
use chatwave_backend.Conversations.Preview.{pair_key}
use chatwave_backend.Conversations.Rows.{is_group, active_member, member_user}

abbrev is_key : Option Text → Text → Bool
is_key none key = false
is_key (some k) key = text_eq k key

abbrev has_key_of : Env → ℕ → List ℕ → Conversation → Bool
has_key_of env owner peers row =
    not (is_group row.type) && any (λ peer. is_key row.pair_key (pair_key env owner peer)) peers

abbrev other_in : ℕ → Conversation → Option ℕ
other_in owner row = find (λ u. not (u == owner)) (map member_user row.members)

abbrev entries_of : ℕ → List Conversation → List (ℕ × ℕ)
entries_of owner [] = []
entries_of owner (row ∷ rows) = elim (other_in owner row) [
  | none ↦ entries_of owner rows
  | some user ↦ (user, row.id) ∷ entries_of owner rows
]

-- The map's entries in the order in which they are set, so that the last one of a peer holds.
unfoldable pub direct_ids_for : Env → ℕ → List ℕ → World → List (ℕ × ℕ)
direct_ids_for env owner peers w =
    let keys = filter (λ id. not (id == owner) && is_mongo_id env id) (dedup peers) in
    entries_of owner (filter (has_key_of env owner keys) w.conversations)

-- `directs.get(id)`
abbrev pub direct_of : ℕ → List (ℕ × ℕ) → Option ℕ
direct_of user [] = none
direct_of user ((u, id) ∷ es) =
    let later = direct_of user es in
    if is_some later then later else if u == user then some id else none

abbrev peers_in : ℕ → Conversation → List ℕ
peers_in user row =
    map member_user (filter (λ m. is_none m.left_at && not (m.user == user)) row.members)

abbrev peers_of_rows : ℕ → List Conversation → List ℕ
peers_of_rows user [] = []
peers_of_rows user (row ∷ rows) =
    let rest = peers_of_rows user rows in
    if is_none (active_member row user) then rest else peers_in user row ++ rest

-- `listDirectPeerIds`
unfoldable pub list_direct_peer_ids : ℕ → World → List ℕ
list_direct_peer_ids user w =
    dedup (peers_of_rows user (filter (λ row. not (is_group row.type)) w.conversations))
