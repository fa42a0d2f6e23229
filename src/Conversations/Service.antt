-- ===== src/Conversations/Service.antt =====
-- The handlers of src/conversations/conversations.service.ts. A DTO holds what `toListItem` and
-- `toDetail` take from the row; the profile fields, which `peerView` copies from the users, are left
-- out.
use chatwave_backend.Base.{
  ℕ, String, Bool, true, false, ◌||◌, ◌&&◌, not, Option, none, some, List, map, ltb, ◌==◌,
  if◌then◌else◌, is_none, is_some, filter, find, any, length, dedup,
}
use chatwave_backend.Base.Text.{Text, trim}
use chatwave_backend.Env.{Env, is_mongo_id}
use chatwave_backend.Schema.User.{AuthViewer}
use chatwave_backend.Schema.Conversation.{Conversation, ConversationMember, PreviewIcon}
use chatwave_backend.World.State.{
  Emit, Action, pure, gets, modify, ◌>>=◌, ◌>>◌, throw_if, or_throw, for_each, when, on_some,
  branch, bad_request, forbidden, not_found,
}
use chatwave_backend.World.Effects.{
  emit, fresh_id, load_conversation, save_conversation, create_conversation,
}
use chatwave_backend.Users.{find_active_by_id, find_by_ids, some_unavailable}
use chatwave_backend.Blocks.Queries.{assert_not_blocked, message_blocked}
use chatwave_backend.Conversations.Rows.{
  is_group, active_member, update_active, member_user, has_admin_role, PreviewInput, apply_preview,
  apply_unread_increment, ensure_direct_members,
}
use chatwave_backend.Conversations.Details.{
  ConversationDetail, to_detail, if_active, find_direct, message_preview, read_at, with_flags,
  new_direct, new_group, with_name, with_tone,
}

module _ (env : Env) where
  unfoldable pub get_by_id : ℕ → Action (Option Conversation)
  get_by_id id = if is_mongo_id env id then load_conversation id else pure none

  unfoldable pub assert_member : ℕ → ℕ → Action Conversation
  assert_member user id = do
    throw_if (not (is_mongo_id env id)) (forbidden "You cannot access this chat")
    row ← load_conversation id
    or_throw (if_active user row) (forbidden "You cannot access this chat")

  unfoldable pub require_member : ℕ → ℕ → Action Conversation
  require_member user id = do
    throw_if (not (is_mongo_id env id)) (not_found "Conversation not found")
    row ← load_conversation id
    or_throw (if_active user row) (not_found "Conversation not found")

  unfoldable pub require_mine : ℕ → ℕ → Action (Conversation × ConversationMember)
  require_mine user id = do
    row ← require_member user id
    mine ← or_throw (active_member row user) (not_found "Conversation not found")
    pure (row, mine)

  unfoldable pub assert_group : ℕ → Action Conversation
  assert_group id = do
    throw_if (not (is_mongo_id env id)) (not_found "Conversation not found")
    row ← or_throw (← load_conversation id) (not_found "Conversation not found")
    throw_if (not (is_group row.type)) (bad_request "This is not a group")
    pure row

  unfoldable pub assert_active_member : ℕ → ℕ → Action Conversation
  assert_active_member id user = do
    row ← assert_group id
    or_throw (if_active user (some row)) (not_found "Conversation not found")

  unfoldable pub assert_group_admin : ℕ → ℕ → String → Action Conversation
  assert_group_admin id user error = do
    row ← assert_active_member id user
    throw_if (not (has_admin_role (active_member row user))) (forbidden error)
    pure row

  unfoldable pub hide_direct_if_empty : ℕ → ℕ → Action Bool
  hide_direct_if_empty user peer =
      branch (not (is_mongo_id env user && is_mongo_id env peer)) (pure false) do
        found ← find_direct env user peer
        on_some found false λ row.
            branch (is_some row.last_message || is_none (active_member row user)) (pure false) do
              now ← gets (λ w. w.now)
              save_conversation (update_active user (λ m. record m { left_at = some now }) row)
              pure true

  -- The result's `peerId`; `ok: true` is not kept.
  unfoldable pub hide_for_viewer : AuthViewer → ℕ → Action (Option ℕ)
  hide_for_viewer viewer id = do
    (row, mine) ← require_mine viewer.id id
    now ← gets (λ w. w.now)
    save_conversation (update_active viewer.id (λ m. record m { left_at = some now }) row)
    pure (
        if is_group row.type
        then none
        else find (λ u. not (u == viewer.id)) (map member_user row.members))

  unfoldable pub archive_direct_between : ℕ → ℕ → Action (Unit {0})
  archive_direct_between blocker blocked =
      branch (not (is_mongo_id env blocker && is_mongo_id env blocked)) (pure tt) do
        found ← find_direct env blocker blocked
        on_some found tt λ row.
            when (is_some (active_member row blocker))
              (save_conversation (update_active blocker (λ m. record m { archived = true }) row))

  -- `deleteMany`, `deleteOne` and the socket messages for a direct chat; a group is hidden.
  unfoldable pub delete_conversation : AuthViewer → ℕ → Action (Option ℕ)
  delete_conversation viewer id = do
    (row, mine) ← require_mine viewer.id id
    branch (is_group row.type) (hide_for_viewer viewer id) do
      modify (λ w. record w { messages = filter (λ m. not (m.conversation == row.id)) w.messages })
      modify (λ w. record w { conversations = filter (λ c. not (c.id == row.id)) w.conversations })
      for_each (map member_user row.members) (λ user. emit (Emit.conversation_removed user row.id))
      pure (find (λ u. not (u == viewer.id)) (map member_user row.members))

  -- The rest of `createDirect`, once `findOne` has returned. The insertion meets no duplicate, since
  -- no other handler runs in between.
  unfoldable pub direct_for :
      AuthViewer → ℕ → Option Conversation → ℕ → Action (Bool × ConversationDetail)
  direct_for viewer other (some found) now = do
    let row = ensure_direct_members now found viewer.id other
    save_conversation row
    detail ← to_detail viewer row
    pure (false, detail)
  direct_for viewer other none now = do
    id ← fresh_id
    let row = new_direct env id now viewer.id other
    create_conversation row
    detail ← to_detail viewer row
    pure (true, detail)

  unfoldable pub create_direct : AuthViewer → ℕ → Action (Bool × ConversationDetail)
  create_direct viewer other = do
    throw_if (other == viewer.id) (bad_request "You cannot start a chat with yourself")
    assert_not_blocked env viewer.id other message_blocked
    throw_if (not (is_mongo_id env other)) (bad_request "That person is not available")
    person ← find_active_by_id other
    throw_if (is_none person) (bad_request "That person is not available")
    existing ← find_direct env viewer.id other
    now ← gets (λ w. w.now)
    direct_for viewer other existing now

  unfoldable pub bump_from_message :
      ℕ → Option ℕ → Text → Option PreviewIcon → ℕ → Action (Option Conversation)
  bump_from_message id sender preview icon message = do
    found ← load_conversation id
    on_some found none λ row. do
      now ← gets (λ w. w.now)
      let row' = apply_preview row (message_preview now sender preview icon message)
      let bumped = apply_unread_increment row' sender
      save_conversation bumped
      pure (some bumped)

  unfoldable pub bump_preview : ℕ → PreviewInput → Action (Option Conversation)
  bump_preview id input = do
    found ← load_conversation id
    on_some found none
        λ row. do let row' = apply_preview row input; save_conversation row'; pure (some row')

  unfoldable pub reset_unread : ℕ → ℕ → Action (Option Conversation)
  reset_unread id user = do
    found ← load_conversation id
    on_some (if_active user found) none λ row. do
      now ← gets (λ w. w.now)
      let row' = update_active user (read_at now) row
      save_conversation row'
      pure (some row')

  unfoldable pub mark_read : AuthViewer → ℕ → Action ConversationDetail
  mark_read viewer id = do
    (row, mine) ← require_mine viewer.id id
    now ← gets (λ w. w.now)
    let row' = update_active viewer.id (read_at now) row
    save_conversation row'
    to_detail viewer row'

  -- The dto's fields, `none` where the request leaves one out.
  unfoldable pub update_membership :
      AuthViewer → ℕ → Option Bool → Option Bool → Option Bool → Action ConversationDetail
  update_membership viewer id pinned muted archived = do
    (row, mine) ← require_mine viewer.id id
    let row' = update_active viewer.id (with_flags pinned muted archived) row
    save_conversation row'
    to_detail viewer row'

  unfoldable pub create_group : AuthViewer → Text → List ℕ → Action ConversationDetail
  create_group viewer name member_ids = do
    let others = filter (λ id. not (id == viewer.id)) (dedup member_ids)
    throw_if (ltb (length others) 3) (bad_request "Add at least 3 other people")
    throw_if (any (λ id. not (is_mongo_id env id)) others) (bad_request "Pick valid people")
    people ← find_by_ids others
    throw_if (some_unavailable others people) (bad_request "Someone in this group is not available")
    now ← gets (λ w. w.now)
    id ← fresh_id
    let row = new_group env id now (trim name) viewer.id others
    create_conversation row
    to_detail viewer row

  unfoldable pub update_group :
      AuthViewer → ℕ → Option Text → Option Text → Action ConversationDetail
  update_group viewer id name tone = do
    row ← require_member viewer.id id
    throw_if (not (is_group row.type)) (bad_request "You can only rename a group")
    let row' = with_tone tone (with_name env name row)
    save_conversation row'
    emit (Emit.group_edited row'.id)
    to_detail viewer row'
