-- ===== src/Messages/Service.antt =====
-- The handlers of src/messages/messages.service.ts. The uploads to Cloudinary are not modelled:
-- `persist` takes the attachments that `uploadOne` and `linkAttachment` give. A handler returns the
-- row that `mapOne` turns into a DTO.
use chatwave_backend.Base.{
  ℕ, ◌+◌, Bool, true, false, ◌&&◌, not, Option, none, some, List, [], ◌∷◌, ◌++◌, ltb, ◌==◌, is_some,
  filter, find, mem, length, take,
}
use chatwave_backend.Base.Text.{Text, trim, is_empty}
use chatwave_backend.Env.{Env, is_mongo_id}
use chatwave_backend.Schema.User.{AuthViewer}
use chatwave_backend.Schema.Conversation.{Conversation, PreviewIcon}
use chatwave_backend.Schema.Message.{
  Message, system, call, CallMeta, ReceiptStatus, DeleteScope, me, everyone,
}
use chatwave_backend.World.State.{
  Emit, Action, pure, gets, ◌>>=◌, ◌>>◌, throw_if, or_throw, for_each, when, on_some, branch,
  bad_request, forbidden, not_found,
}
use chatwave_backend.World.Effects.{
  emit, fresh_id, load_message, save_message, create_message, too_many,
}
use chatwave_backend.Users.{find_active_by_id}
use chatwave_backend.Blocks.Queries.{assert_not_blocked, message_blocked}
use chatwave_backend.Conversations.Rows.{active_member_ids, is_group}
use chatwave_backend.Conversations.Service.{
  get_by_id, assert_member, bump_from_message, bump_preview, reset_unread,
}
use chatwave_backend.Messages.Html.{strip_html}
use chatwave_backend.Messages.Labels.{icon}
use chatwave_backend.Messages.Reactions.{toggle, is_bad_emoji}
use chatwave_backend.Messages.Receipts.{mark_receipts}
use chatwave_backend.Messages.Rows.{
  text_max, new_message, previews, or_row, should_send_read_receipt, with_call, is_call_log,
  call_preview, flip_pin, is_from, asset_ids, is_bad_id, is_markable, is_seen, is_message_of,
  MessageInput, with_input, text_input, input_label,
}

module _ (env : Env) where
  -- the bump, and `emitNew`, behind each `create` of a message
  unfoldable pub announce :
      Conversation → ℕ → Option ℕ → Text → Option PreviewIcon → ℕ → Action (Unit {0})
  announce conversation id sender preview icon message = do
    bumped ← bump_from_message env id sender preview icon message
    let live = or_row bumped conversation
    emit (Emit.message_new live.id message (previews live preview sender))

  unfoldable pub send_system : ℕ → Option ℕ → Text → Action (Option Message)
  send_system id sender body =
      let value = strip_html body in
      branch (is_empty value) (pure none) do
        found ← get_by_id env id
        on_some found none λ conversation. do
          now ← gets (λ w. w.now)
          message ← fresh_id
          let row = new_message now message id sender system value
          create_message row
          announce conversation id sender value none message
          pure (some row)

  unfoldable pub send_call_log : ℕ → ℕ → CallMeta → Action (Option Message)
  send_call_log id sender input = do
    found ← get_by_id env id
    on_some found none λ conversation. do
      now ← gets (λ w. w.now)
      message ← fresh_id
      let row = with_call input (new_message now message id (some sender) call input.label)
      create_message row
      announce conversation id (some sender) input.label none message
      pure (some row)

  unfoldable pub touch : Message → Action Message
  touch row = do
    conversation ← or_throw (← get_by_id env row.conversation) (not_found "Conversation not found")
    emit (Emit.message_updated row.id)
    pure row

  -- `findOne({ callId, type: 'call' })`
  unfoldable pub find_call_log : ℕ → Action (Option Message)
  find_call_log id = gets (λ w. find (is_call_log id) w.messages)

  unfoldable pub update_call_log : CallMeta → Text → Action (Option Message)
  update_call_log input preview = branch (not (is_mongo_id env input.call_id)) (pure none) do
    found ← find_call_log input.call_id
    on_some found none λ row. do
      now ← gets (λ w. w.now)
      let row' = record row { text = input.label; call_meta = some input }
      save_message row'
      bump_preview env row'.conversation (call_preview now row'.sender preview)
      updated ← touch row'
      pure (some updated)

  unfoldable pub load : AuthViewer → ℕ → Bool → Action Message
  load viewer id allow_deleted_for_me = do
    throw_if (not (is_mongo_id env id)) (not_found "Message not found")
    row ← or_throw (← load_message id) (not_found "Message not found")
    throw_if (is_some row.deleted_at) (not_found "Message not found")
    throw_if (not allow_deleted_for_me && mem viewer.id row.deleted_for)
        (not_found "Message not found")
    assert_member env viewer.id row.conversation
    pure row

  unfoldable pub toggle_reaction : AuthViewer → ℕ → Text → Action Message
  toggle_reaction viewer id emoji = do
    let value = trim emoji
    throw_if (is_bad_emoji value) (bad_request "Pick a valid emoji")
    row ← load viewer id false
    let row' = record row { reactions = toggle value viewer.id row.reactions }
    save_message row'
    touch row'

  unfoldable pub toggle_pin : AuthViewer → ℕ → Action Message
  toggle_pin viewer id = do
    row ← load viewer id false
    now ← gets (λ w. w.now)
    let row' = flip_pin now viewer.id row
    save_message row'
    touch row'

  unfoldable pub remove : AuthViewer → ℕ → DeleteScope → Action (Unit {0})
  remove viewer id everyone = do
    row ← load viewer id true
    throw_if (not (is_from viewer.id row.sender))
        (forbidden "Only the sender can delete this for everyone")
    now ← gets (λ w. w.now)
    save_message (record row { deleted_at = some now; deleted_by = some viewer.id })
    for_each (asset_ids row) (λ asset. emit (Emit.asset_deleted asset))
    emit (Emit.message_deleted row.id row.conversation everyone none)
  remove viewer id me = do
    row ← load viewer id true
    when (not (mem viewer.id row.deleted_for))
        (save_message (record row { deleted_for = row.deleted_for ++ viewer.id ∷ [] }))
    emit (Emit.message_deleted row.id row.conversation me (some viewer.id))

  -- the body of the loop of `mark`; the count of updates goes up where a row is written
  unfoldable pub mark_one : ℕ → ℕ → ReceiptStatus → ℕ → Message → Action ℕ
  mark_one viewer id status updated row = do
    now ← gets (λ w. w.now)
    on_some (mark_receipts now viewer status row.receipts) updated λ receipts. do
      save_message (record row { receipts = receipts })
      emit (Emit.message_receipts id row.id receipts)
      pure (updated + 1)

  unfoldable pub mark_all : ℕ → ℕ → ReceiptStatus → ℕ → List Message → Action ℕ
  mark_all viewer id status updated [] = pure updated
  mark_all viewer id status updated (row ∷ rows) = do
    count ← mark_one viewer id status updated row
    mark_all viewer id status count rows

  unfoldable pub mark_matching : AuthViewer → ℕ → ReceiptStatus → Option ℕ → Action ℕ
  mark_matching viewer id status message = do
    throw_if (is_bad_id env message) (bad_request "Message not found")
    rows ← gets (λ w. take 500 (filter (is_markable viewer.id id message) w.messages))
    updated ← mark_all viewer.id id status 0 rows
    when (is_seen status) (reset_unread env id viewer.id >> pure tt)
    pure updated

  unfoldable pub mark : AuthViewer → ℕ → ReceiptStatus → Option ℕ → Action ℕ
  mark viewer id status message = do
    assert_member env viewer.id id
    person ← find_active_by_id viewer.id
    branch (is_seen status && not (should_send_read_receipt person))
        (reset_unread env id viewer.id >> pure 0) (mark_matching viewer id status message)

  -- `assertNotBlocked` with the other active member of a direct chat
  unfoldable pub assert_can_write : AuthViewer → Conversation → Action (Unit {0})
  assert_can_write viewer conversation = when (not (is_group conversation.type)) (
      on_some (find (λ u. not (u == viewer.id)) (active_member_ids conversation)) tt
        λ other. assert_not_blocked env viewer.id other message_blocked)

  -- the check of `replyTo`: the id of a message of the same chat
  unfoldable pub assert_reply : ℕ → Option ℕ → Action (Unit {0})
  assert_reply conversation reply = on_some reply tt λ id. do
    throw_if (not (is_mongo_id env id)) (bad_request "Reply to a valid message")
    found ← load_message id
    throw_if (not (is_message_of conversation found))
        (bad_request "That message is not in this chat")

  unfoldable pub persist : AuthViewer → ℕ → MessageInput → Action Message
  persist viewer id input = do
    user ← or_throw (← find_active_by_id viewer.id) (forbidden "Your account cannot send messages")
    conversation ← assert_member env viewer.id id
    assert_can_write viewer conversation
    limited ← too_many viewer.id id 30 10
    throw_if limited (bad_request "You are sending messages too quickly")
    assert_reply id input.reply_to
    now ← gets (λ w. w.now)
    message ← fresh_id
    let row = with_input input (new_message now message id (some viewer.id) input.type input.text)
    create_message row
    announce conversation id (some viewer.id)
        (input_label input user.name (is_group conversation.type)) (icon input.type) message
    emit (Emit.event_message_created message id viewer.id)
    pure row

  -- `send` without files or links
  unfoldable pub send_text : AuthViewer → ℕ → Text → Option ℕ → Action Message
  send_text viewer id body reply = do
    let value = strip_html body
    throw_if (is_empty value) (bad_request "Write a message first")
    throw_if (ltb text_max (length value)) (bad_request "That message is too long")
    persist viewer id (text_input value reply)
