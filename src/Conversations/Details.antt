-- ===== src/Conversations/Details.antt =====
-- The answers of src/conversations/conversations.service.ts, and the rows that it creates and edits.
use chatwave_backend.Base.{
  ℕ, Bool, false, ◌&&◌, not, Option, none, some, List, [], ◌∷◌, map, ◌==◌, if◌then◌else◌, is_some,
  or_else, find,
}
use chatwave_backend.Base.Text.{Text, text, text_eq}
use chatwave_backend.Env.{Env}
use chatwave_backend.Schema.User.{AuthViewer}
use chatwave_backend.Schema.Conversation.{
  Conversation, ConversationMember, MemberRole, admin, member, ConversationType, direct, group,
  PreviewIcon,
}
use chatwave_backend.World.State.{Action, pure, gets, ◌>>=◌, or_throw, not_found}
use chatwave_backend.Users.{initials_from_name, tone_from_name}
use chatwave_backend.Conversations.Preview.{viewer_preview, pair_key}
use chatwave_backend.Conversations.Rows.{
  is_group, active_member, member_doc, get_active_members, PreviewInput,
}

pub record MemberDto : Type 0 where
  pub id : ℕ
  pub role : MemberRole
  pub is_me : Bool

pub record ConversationDetail : Type 0 where
  pub id : ℕ
  pub type : ConversationType
  pub unread : ℕ
  pub pinned : Bool
  pub muted : Bool
  pub archived : Bool
  pub preview : Text
  pub time : ℕ
  pub created_by : ℕ
  pub members : List MemberDto

abbrev member_dto : ℕ → ConversationMember → MemberDto
member_dto viewer m = record { id = m.user; role = m.role; is_me = m.user == viewer }

unfoldable pub to_detail : AuthViewer → Conversation → Action ConversationDetail
to_detail viewer row = do
  mine ← or_throw (active_member row viewer.id) (not_found "Conversation not found")
  pure (record {
    id = row.id;
    type = row.type;
    unread = mine.unread_count;
    pinned = mine.pinned;
    muted = mine.muted;
    archived = mine.archived;
    preview = viewer_preview row.preview row.last_message_sender viewer.id;
    time = row.last_message_at;
    created_by = row.created_by;
    members = map (member_dto viewer.id) (get_active_members row);
  })

abbrev pub if_active : ℕ → Option Conversation → Option Conversation
if_active user none = none
if_active user (some row) = if is_some (active_member row user) then some row else none

abbrev is_between : Text → Conversation → Bool
is_between key row =
    not (is_group row.type) && elim row.pair_key [ none ↦ false | some k ↦ text_eq k key ]

-- `findOne({ type: 'direct', pairKey })`
unfoldable pub find_direct : Env → ℕ → ℕ → Action (Option Conversation)
find_direct env a b = gets (λ w. find (is_between (pair_key env a b)) w.conversations)

-- `applyPreview` of `bumpFromMessage`
abbrev pub message_preview : ℕ → Option ℕ → Text → Option PreviewIcon → ℕ → PreviewInput
message_preview now sender preview icon message = record {
  preview = preview;
  preview_icon = some icon;
  last_message = some message;
  last_message_at = some now;
  sender_id = some sender;
}

abbrev pub read_at : ℕ → ConversationMember → ConversationMember
read_at now m = record m { unread_count = 0; last_read_at = some now }

abbrev pub with_flags :
    Option Bool → Option Bool → Option Bool → ConversationMember → ConversationMember
with_flags pinned muted archived m = record m {
  pinned = or_else pinned m.pinned;
  muted = or_else muted m.muted;
  archived = or_else archived m.archived;
}

unfoldable pub new_direct : Env → ℕ → ℕ → ℕ → ℕ → Conversation
unfolding member_doc
new_direct env id now viewer other = record {
  id = id;
  type = direct;
  name = [];
  initials = [];
  tone = text "e";
  photo = none;
  photo_public_id = none;
  created_by = viewer;
  members = member_doc viewer member now ∷ member_doc other member now ∷ [];
  last_message = none;
  last_message_sender = none;
  last_message_at = now;
  preview = [];
  preview_icon = none;
  pair_key = some (pair_key env viewer other);
}

unfoldable pub new_group : Env → ℕ → ℕ → Text → ℕ → List ℕ → Conversation
unfolding member_doc
new_group env id now name viewer others = record {
  id = id;
  type = group;
  name = name;
  initials = initials_from_name env name;
  tone = tone_from_name name;
  photo = none;
  photo_public_id = none;
  created_by = viewer;
  members = member_doc viewer admin now ∷ map (λ user. member_doc user member now) others;
  last_message = none;
  last_message_sender = none;
  last_message_at = now;
  preview = text "You created this group";
  preview_icon = none;
  pair_key = none;
}

abbrev pub with_name : Env → Option Text → Conversation → Conversation
with_name env none row = row
with_name env (some []) row = row
with_name env (some (c ∷ s)) row = record row {
  name = c ∷ s;
  initials = initials_from_name env (c ∷ s);
}

abbrev pub with_tone : Option Text → Conversation → Conversation
with_tone none row = row
with_tone (some tone) row = record row { tone = tone }
