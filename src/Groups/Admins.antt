-- ===== src/Groups/Admins.antt =====
-- "A group needs at least one admin" (src/groups/groups.constants.ts): the rows that the handlers of
-- src/groups/groups.service.ts store.
use chatwave_backend.Base.{
  ℕ, ◌+◌, ◌≡◌, ◌≤◌, Bool, true, false, ◌&&◌, not, Option, some, List, [], ◌∷◌, find, filter, any,
  ◌==◌, arith, if◌then◌else◌, is_none, is_some, length, update_first, ◌≢◌, All,
}
use chatwave_backend.Schema.Conversation.{Conversation, ConversationMember, MemberRole}
use chatwave_backend.Conversations.Rows.{
  is_active_as, is_active, is_admin, active_member, admin_count, is_group_admin, set_member_role,
  mark_member_left, has_admin_role, get_active_members, update_active,
}
use chatwave_backend.Groups.Service.{takes_last_admin, role_of}

abbrev count : List ConversationMember → ℕ
count ms = length (filter (λ m. is_admin m.role) (filter is_active ms))

abbrev leaves : ℕ → Option ℕ → ConversationMember → ConversationMember
leaves now by m = record m { left_at = some now; removed_by = by }

count-role :
    (role : MemberRole) (user : ℕ) (ms : List ConversationMember) (m : ConversationMember)
    → find (is_active_as user) ms ≡ some m
    → count (update_first (is_active_as user) (λ x. record x { role = role }) ms)
        + (if is_admin m.role then 1 else 0)
      ≡ count ms + (if is_admin role then 1 else 0)
count-role role user [] m e = cc
count-role role user (x ∷ ms) m e = ground (arith, count-role role user ms m)

-- An active admin who is someone else.
abbrev other_admin : ℕ → ConversationMember → Bool
other_admin viewer m = is_none m.left_at && is_admin m.role && not (m.user == viewer)

other-count :
    (viewer : ℕ) (ms : List ConversationMember) → any (other_admin viewer) ms ≡ true → 1 ≤ count ms
other-count viewer [] h = cc
other-count viewer (m ∷ ms) h = ground (arith, other-count viewer ms)

leaves-other :
    (now viewer : ℕ) (by : Option ℕ) (ms : List ConversationMember)
    → any (other_admin viewer) ms ≡ true
    → 1 ≤ count (update_first (is_active_as viewer) (leaves now by) ms)
leaves-other now viewer by [] h = cc
leaves-other now viewer by (m ∷ ms) h =
    ground (arith, leaves-other now viewer by ms, other-count viewer ms)

-- Of the members of a chat, someone who can take over from the viewer.
abbrev CanInherit : ℕ → List ConversationMember → ConversationMember → Type 0
CanInherit viewer ms m = (m.user ≢ viewer) × (is_some (find (is_active_as m.user) ms) ≡ true)

pub set_member_role-admin_count :
    (row : Conversation) (user : ℕ) (seat : ConversationMember) (make_admin : Bool)
    → active_member row user ≡ some seat
    → takes_last_admin make_admin seat row ≡ false
    → 1 ≤ admin_count row
    → 1 ≤ admin_count (set_member_role (role_of make_admin) user row)
unfolding active_member takes_last_admin admin_count set_member_role get_active_members
    update_active
set_member_role-admin_count row user seat make_admin e g h =
    ground (arith, count-role (role_of make_admin) user row.members seat e)

-- Where the viewer is an admin of the group, marking someone else as having left, as `removeMember`
-- does, leaves an admin.
mark_member_left-admin_count :
    (now viewer user : ℕ) (by : Option ℕ) (row : Conversation)
    → is_group_admin row viewer ≡ true
    → user ≢ viewer
    → 1 ≤ admin_count (mark_member_left now user by row)
unfolding is_group_admin active_member admin_count mark_member_left get_active_members update_active
mark_member_left-admin_count now viewer user by row a ne =
    leaves-other now user by row.members (admin-other viewer user row.members ne (ground arith))
  where
    admin-other :
        (viewer user : ℕ) (ms : List ConversationMember)
        → user ≢ viewer
        → has_admin_role (find (is_active_as viewer) ms) ≡ true
        → any (other_admin user) ms ≡ true
    admin-other viewer user [] ne h = h
    admin-other viewer user (m ∷ ms) ne h = ground (arith, admin-other viewer user ms)

-- `a` has been a member at least as long as each of the others.
abbrev pub IsLongest : ConversationMember → List ConversationMember → Type 0
IsLongest a ms = All (λ m. a.joined_at ≤ m.joined_at) ms

older-IsLongest :
    (a b : ConversationMember) (ms : List ConversationMember)
    → a.joined_at ≤ b.joined_at
    → IsLongest b ms
    → IsLongest a ms
older-IsLongest a b [] le h = tt
older-IsLongest a b (m ∷ ms) le h = let first = h.0 in (omega arith, older-IsLongest a b ms le h.1)

count-hidden :
    (now user : ℕ) (ms : List ConversationMember)
    → has_admin_role (find (is_active_as user) ms) ≡ true
    → count ms
      ≡ count (update_first (is_active_as user) (λ m. record m { left_at = some now }) ms) + 1
count-hidden now user [] h = cc
count-hidden now user (m ∷ ms) h = ground (arith, count-hidden now user ms)

-- Hiding a group from one of its admins takes one admin away.
pub admin_count-hidden :
    (now user : ℕ) (row : Conversation)
    → is_group_admin row user ≡ true
    → admin_count row
      ≡ admin_count (update_active user (λ m. record m { left_at = some now }) row) + 1
unfolding admin_count is_group_admin active_member get_active_members update_active
admin_count-hidden now user row a = count-hidden now user row.members (ground arith)
