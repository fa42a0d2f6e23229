-- ===== src/Groups/Service.antt =====
-- The handlers of src/groups/groups.service.ts.
use chatwave_backend.Base.{
  ℕ, String, Bool, true, false, ◌&&◌, not, Option, none, some, List, [], ◌∷◌, ◌++◌, map, leb, ◌==◌,
  if◌then◌else◌, is_none, filter, mem, length, dedup,
}
use chatwave_backend.Base.Text.{Text, text}
use chatwave_backend.Env.{Env}
use chatwave_backend.Schema.User.{User, AuthViewer}
use chatwave_backend.Schema.Conversation.{
  Conversation, ConversationMember, MemberRole, admin, member,
}
use chatwave_backend.World.State.{
  Emit, LeaveReason, Action, pure, gets, ◌>>=◌, ◌>>◌, throw_if, or_throw, for_each, branch,
  bad_request,
}
use chatwave_backend.World.Effects.{emit, save_conversation}
use chatwave_backend.Users.{find_by_id, find_by_ids, some_unavailable}
use chatwave_backend.Blocks.Restricted.{restricted_ids}
use chatwave_backend.Conversations.Rows.{
  is_admin, active_member, active_member_ids, get_active_members, admin_count, is_group_admin,
  set_member_role, mark_member_left, add_members, longest_tenured_member, unread_of,
}
use chatwave_backend.Conversations.Service.{get_by_id, assert_active_member, assert_group_admin}
use chatwave_backend.Conversations.Details.{ConversationDetail, to_detail}
use chatwave_backend.Messages.Service.{send_system}

abbrev joined_by : List Text → Text
joined_by [] = []
joined_by (n ∷ []) = text ", and " ++ n
joined_by (n ∷ m ∷ ns) = text ", " ++ n ++ joined_by (m ∷ ns)

-- `and(names)`
unfoldable pub and_names : List Text → Text
and_names [] = []
and_names (a ∷ []) = a
and_names (a ∷ b ∷ []) = a ++ text " and " ++ b
and_names (a ∷ b ∷ c ∷ ns) = a ++ joined_by (b ∷ c ∷ ns)

abbrev name_or : Text → Option User → Text
name_or default none = default
name_or default (some u) = u.name

abbrev not_in_group : String
not_in_group = "That person is not in this group"

abbrev or_row : Option Conversation → Conversation → Conversation
or_row none row = row
or_row (some live) row = live

-- `!isAdmin && member.role === 'admin' && adminCount(row) <= 1`
unfoldable pub takes_last_admin : Bool → ConversationMember → Conversation → Bool
takes_last_admin make_admin m row = not make_admin && is_admin m.role && leb (admin_count row) 1

abbrev pub role_of : Bool → MemberRole
role_of true = admin
role_of false = member

-- the promotion in `leave`, where the viewer is the only admin and is not alone
unfoldable pub promote_heir : ℕ → Conversation → Conversation
promote_heir viewer row =
    if admin_count row == 1 && is_group_admin row viewer
    then elim (longest_tenured_member row viewer) [
      | none ↦ row
      | some next ↦ set_member_role admin next.user row
    ]
    else row

-- The row that `leave` stores.
unfoldable pub left_row : ℕ → ℕ → Conversation → Conversation
left_row now viewer row = mark_member_left now viewer none (promote_heir viewer row)

abbrev pub others_of : ℕ → Conversation → List ConversationMember
others_of viewer row = filter (λ m. not (m.user == viewer)) (get_active_members row)

module _ (env : Env) where
  -- `commit` saves the row, posts the notice and tells the group.
  unfoldable pub commit : Conversation → Option ℕ → Text → Action Conversation
  commit row sender body = do
    save_conversation row
    send_system env row.id sender body
    found ← get_by_id env row.id
    emit (Emit.group_updated (or_row found row).id)
    pure (or_row found row)

  unfoldable pub add_group_members : AuthViewer → ℕ → List ℕ → Action (Bool × ConversationDetail)
  add_group_members viewer id users = do
    row ← assert_group_admin env id viewer.id "Only a group admin can do that"
    skip ← restricted_ids env viewer.id
    now ← gets (λ w. w.now)
    let taken = active_member_ids row
    let wanted = filter (λ u. not (u == viewer.id) && not (mem u taken)) (dedup users)
    let candidates = filter (λ u. not (mem u skip)) wanted
    branch (length candidates == 0) (to_detail viewer row >>= λ detail. pure (false, detail)) do
      people ← find_by_ids candidates
      throw_if (some_unavailable candidates people)
          (bad_request "Someone in this group is not available")
      let (row', added) = add_members now row candidates
      live ←
          commit row' (some viewer.id)
            (text "You added " ++ and_names (map (λ u. u.name) people) ++ text " to the group.")
      for_each added (λ user. emit (Emit.preview user live.id (unread_of live user)))
      emit (Emit.event_member_added live.id viewer.id added)
      detail ← to_detail viewer live
      pure (true, detail)

  unfoldable pub remove_member : AuthViewer → ℕ → ℕ → Action (Unit {0})
  remove_member viewer id user = do
    row ← assert_group_admin env id viewer.id "Only a group admin can remove people"
    throw_if (user == viewer.id) (bad_request "Leave the group instead")
    target ← or_throw (← find_by_id user) (bad_request not_in_group)
    throw_if (is_none (active_member row user)) (bad_request not_in_group)
    now ← gets (λ w. w.now)
    commit (mark_member_left now user (some viewer.id) row) (some viewer.id)
        (text "You removed " ++ target.name ++ text " from the group.")
    emit (Emit.member_left row.id user LeaveReason.removed)
    emit (Emit.conversation_removed user row.id)

  abbrev admin_notice : Bool → Text → Text
  admin_notice true name = text "You made " ++ name ++ text " a group admin."
  admin_notice false name = text "You removed admin from " ++ name ++ text "."

  unfoldable pub set_admin : AuthViewer → ℕ → ℕ → Bool → Action (Unit {0})
  set_admin viewer id user make_admin = do
    row ← assert_group_admin env id viewer.id "Only a group admin can do that"
    seat ← or_throw (active_member row user) (bad_request not_in_group)
    throw_if (takes_last_admin make_admin seat row) (bad_request "A group needs at least one admin")
    throw_if (user == viewer.id) (bad_request "You cannot change your own admin role here")
    target ← or_throw (← find_by_id user) (bad_request not_in_group)
    commit (set_member_role (role_of make_admin) user row) (some viewer.id)
        (admin_notice make_admin target.name)
    pure tt

  unfoldable pub leave : AuthViewer → ℕ → Action (Unit {0})
  leave viewer id = do
    row ← assert_active_member env id viewer.id
    now ← gets (λ w. w.now)
    leaver ← find_by_id viewer.id
    let row' = left_row now viewer.id row
    branch (length (others_of viewer.id row) == 0) (save_conversation row')
        (commit row' none (name_or (text "A member") leaver ++ text " left the group.") >> pure tt)
    emit (Emit.member_left row.id viewer.id LeaveReason.left)
    emit (Emit.conversation_removed viewer.id row.id)
