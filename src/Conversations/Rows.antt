-- ===== src/Conversations/Rows.antt =====
-- The functions of src/conversations/conversations.service.ts that read or mutate one loaded row.
use chatwave_backend.Base.{
  ℕ, ◌+◌, Bool, true, false, ◌&&◌, not, Option, none, some, List, [], ◌∷◌, ◌++◌, map, ltb, ◌==◌,
  if◌then◌else◌, is_none, is_some, or_else, filter, find, update_first, length, any,
}
use chatwave_backend.Base.Text.{Text}
use chatwave_backend.Schema.Conversation.{
  Conversation, ConversationMember, MemberRole, admin, member, ConversationType, direct, group,
  PreviewIcon,
}

abbrev pub is_group : ConversationType → Bool
is_group group = true
is_group direct = false

abbrev pub is_admin : MemberRole → Bool
is_admin admin = true
is_admin member = false

-- `String(m.user) === userId && !m.leftAt`
abbrev pub is_active_as : ℕ → ConversationMember → Bool
is_active_as user m = m.user == user && is_none m.left_at

unfoldable pub active_member : Conversation → ℕ → Option ConversationMember
active_member row user = find (is_active_as user) row.members

-- the member that `activeMember` returned, mutated in place
unfoldable pub update_active :
    ℕ → (ConversationMember → ConversationMember) → Conversation → Conversation
update_active user f row = record row { members = update_first (is_active_as user) f row.members }

unfoldable pub member_doc : ℕ → MemberRole → ℕ → ConversationMember
member_doc user role now = record {
  user = user;
  role = role;
  pinned = false;
  muted = false;
  archived = false;
  unread_count = 0;
  last_read_at = none;
  last_read_message = none;
  joined_at = now;
  left_at = none;
  removed_by = none;
}

abbrev pub is_active : ConversationMember → Bool
is_active m = is_none m.left_at

abbrev pub member_user : ConversationMember → ℕ
member_user m = m.user

unfoldable pub get_active_members : Conversation → List ConversationMember
get_active_members row = filter is_active row.members

unfoldable pub active_member_ids : Conversation → List ℕ
active_member_ids row = map member_user (filter is_active row.members)

unfoldable pub member_role : Conversation → ℕ → Option MemberRole
unfolding active_member
member_role row user = elim (active_member row user) [ none ↦ none | some m ↦ some m.role ]

unfoldable pub unread_of : Conversation → ℕ → ℕ
unread_of row user = elim (active_member row user) [ none ↦ 0 | some m ↦ m.unread_count ]

abbrev pub has_admin_role : Option ConversationMember → Bool
has_admin_role none = false
has_admin_role (some m) = is_admin m.role

unfoldable pub is_group_admin : Conversation → ℕ → Bool
is_group_admin row user = is_group row.type && has_admin_role (active_member row user)

unfoldable pub admin_count : Conversation → ℕ
unfolding get_active_members
admin_count row = length (filter (λ m. is_admin m.role) (get_active_members row))

-- The argument of `applyPreview`; an outer `none` is a field that the caller leaves out.
pub record PreviewInput : Type 0 where
  pub preview : Text
  pub preview_icon : Option (Option PreviewIcon)
  pub last_message : Option ℕ
  pub last_message_at : Option ℕ
  pub sender_id : Option (Option ℕ)

unfoldable pub apply_preview : Conversation → PreviewInput → Conversation
apply_preview row input = record row {
  preview = input.preview;
  preview_icon = or_else input.preview_icon row.preview_icon;
  last_message = elim input.last_message [ none ↦ row.last_message | some id ↦ some id ];
  last_message_at = or_else input.last_message_at row.last_message_at;
  last_message_sender = or_else input.sender_id row.last_message_sender;
}

abbrev pub bump_unread : Option ℕ → ConversationMember → ConversationMember
bump_unread except m =
    if is_none m.left_at && not (elim except [ none ↦ false | some u ↦ m.user == u ])
    then record m { unread_count = m.unread_count + 1 }
    else m

-- A sender that is the empty string is no one: `none`.
unfoldable pub apply_unread_increment : Conversation → Option ℕ → Conversation
apply_unread_increment row except = record row { members = map (bump_unread except) row.members }

abbrev pub rejoin_or_add : ℕ → List ConversationMember → ℕ → List ConversationMember
rejoin_or_add now members id =
    if any (λ m. m.user == id) members
    then update_first (λ m. m.user == id) (λ m. record m { left_at = none; removed_by = none })
        members
    else members ++ member_doc id member now ∷ []

unfoldable pub ensure_direct_members : ℕ → Conversation → ℕ → ℕ → Conversation
unfolding member_doc
ensure_direct_members now row a b = record row {
  members = rejoin_or_add now (rejoin_or_add now row.members a) b;
}

abbrev pub as_new_member : ℕ → ConversationMember → ConversationMember
as_new_member now m = record m {
  left_at = none;
  removed_by = none;
  role = member;
  joined_at = now;
  unread_count = 0;
}

-- one round of the loop of `addMembers`
unfoldable pub add_member : ℕ → Conversation → ℕ → Conversation
unfolding active_member member_doc
add_member now row id =
    if is_some (active_member row id)
    then row
    else if any (λ m. m.user == id) row.members
    then record row { members = update_first (λ m. m.user == id) (as_new_member now) row.members }
    else record row { members = row.members ++ member_doc id member now ∷ [] }

-- The new row, and the ids that were added.
unfoldable pub add_members : ℕ → Conversation → List ℕ → Conversation × List ℕ
unfolding add_member
add_members now row [] = (row, [])
add_members now row (id ∷ ids) =
    let (row', added) = add_members now (add_member now row id) ids in
    (row', if is_some (active_member row id) then added else id ∷ added)

unfoldable pub set_member_role : MemberRole → ℕ → Conversation → Conversation
unfolding update_active
set_member_role role user row = update_active user (λ m. record m { role = role }) row

unfoldable pub mark_member_left : ℕ → ℕ → Option ℕ → Conversation → Conversation
unfolding update_active
mark_member_left now user by row =
    update_active user (λ m. record m { left_at = some now; removed_by = by }) row

-- The first of the members with the least `joinedAt`: the head of the stable sort.
abbrev pub earliest : ConversationMember → List ConversationMember → ConversationMember
earliest best [] = best
earliest best (m ∷ ms) = earliest (if ltb m.joined_at best.joined_at then m else best) ms

unfoldable pub longest_tenured_member : Conversation → ℕ → Option ConversationMember
longest_tenured_member row except =
    elim (filter (λ m. not (m.user == except)) (get_active_members row)) [
      | [] ↦ none
      | m ∷ ms ↦ some (earliest m ms)
    ]
