-- ===== src/Sockets/Packets.antt =====
-- The packets that the publishers send: `emitNew` to `emitBadge` of src/messages/messages.gateway.ts
-- and the methods of src/calls/calls.realtime.ts.
use chatwave_backend.Base.{
  ℕ, String, Bool, true, Option, none, some, List, [], ◌∷◌, ◌==◌, not, map, filter,
}
use chatwave_backend.Base.Rows.{find_row}
use chatwave_backend.Schema.Conversation.{Conversation}
use chatwave_backend.Schema.Message.{Message, DeleteScope, me, everyone}
use chatwave_backend.World.State.{World, Emit, Preview}
use chatwave_backend.World.Effects.{conversation_id, message_id}
use chatwave_backend.Conversations.Rows.{active_member_ids}
use chatwave_backend.Sockets.State.{
  Room, user_room, conversation_room, call_room, Event, named, participant, Packet,
}

abbrev pub packet : Room → Event → Packet
packet r e = record { to = r; except = none; event = e }

abbrev pub to_user : String → ℕ → Packet
to_user name user = packet (user_room user) (named name)

abbrev pub to_chat : String → ℕ → Packet
to_chat name id = packet (conversation_room id) (named name)

-- `emitNew`
unfoldable pub preview_packets : List Preview → List Packet
preview_packets [] = []
preview_packets (p ∷ ps) =
    to_user "conversation:preview" p.user ∷ to_user "message:new" p.user ∷ preview_packets ps

unfoldable pub emit_new : ℕ → List Preview → List Packet
unfolding preview_packets
emit_new conversation previews = to_chat "message:new" conversation ∷ preview_packets previews

-- `emitDeleted`
unfoldable pub emit_deleted : ℕ → DeleteScope → Option ℕ → List Packet
emit_deleted conversation me (some user) = to_user "message:deleted" user ∷ []
emit_deleted conversation me none = to_chat "message:deleted" conversation ∷ []
emit_deleted conversation everyone user = to_chat "message:deleted" conversation ∷ []

-- `emitGroupUpdated`, to the members of the group
unfoldable pub emit_group_updated : ℕ → List ℕ → List Packet
emit_group_updated conversation members =
    to_chat "group:updated" conversation ∷ map (to_user "group:updated") members

-- `fanout`
unfoldable pub fanout : ℕ → List ℕ → ℕ → String → List Packet
fanout conversation users call name =
    to_chat name conversation ∷ packet (call_room call) (named name) ∷ map (to_user name) users

-- `emitMissed`
unfoldable pub emit_missed : List ℕ → ℕ → List Packet
emit_missed users call =
    packet (call_room call) (named "call:missed") ∷ map (to_user "call:missed") users

abbrev chat_of_message : Option Message → List ℕ
chat_of_message none = []
chat_of_message (some m) = m.conversation ∷ []

abbrev members_of : Option Conversation → List ℕ
members_of none = []
members_of (some row) = active_member_ids row

-- `emitParticipant`
unfoldable pub emit_participant : ℕ → ℕ → Bool → List ℕ → List Packet
emit_participant call user joined peers =
    let event = participant call user joined in
    packet (call_room call) event
    ∷ packet (user_room user) event
    ∷ map (λ peer. packet (user_room peer) event) (filter (λ peer. not (peer == user)) peers)

-- The packets of what a service sends, in the world that it leaves. A mail, a cookie and an event of
-- the bus are none.
unfoldable pub packets_of : World → Emit → List Packet
packets_of w (Emit.call_incoming user call) = to_user "call:incoming" user ∷ []
packets_of w (Emit.call_started conversation call) = to_chat "call:started" conversation ∷ []
packets_of w (Emit.call_accepted conversation users call user) =
    fanout conversation users call "call:accepted"
packets_of w (Emit.call_declined conversation users call user) =
    fanout conversation users call "call:declined"
packets_of w (Emit.call_ended conversation users call status duration ended_by) =
    fanout conversation users call "call:ended"
packets_of w (Emit.call_missed users call) = emit_missed users call
packets_of w (Emit.call_joined call user users) = emit_participant call user true users
packets_of w (Emit.message_new conversation message previews) = emit_new conversation previews
packets_of w (Emit.message_updated message) =
    map (to_chat "message:updated") (chat_of_message (find_row message_id message w.messages))
packets_of w (Emit.message_deleted message conversation scope user) =
    emit_deleted conversation scope user
packets_of w (Emit.message_receipts conversation message receipts) =
    to_chat "receipts:updated" conversation ∷ []
packets_of w (Emit.group_edited conversation) = emit_group_updated conversation []
packets_of w (Emit.group_updated conversation) =
    emit_group_updated conversation
      (members_of (find_row conversation_id conversation w.conversations))
packets_of w (Emit.member_left conversation user reason) =
    to_chat "group:member-left" conversation ∷ to_user "group:member-left" user ∷ []
packets_of w (Emit.conversation_removed user conversation) =
    to_user "conversation:removed" user ∷ []
packets_of w (Emit.preview user conversation unread) = to_user "conversation:preview" user ∷ []
packets_of w (Emit.blocked blocker blocked) =
    to_user "user:blocked" blocker ∷ to_user "user:blocked" blocked ∷ []
packets_of w (Emit.notification user notification) = to_user "notification:new" user ∷ []
packets_of w (Emit.badge user count) = to_user "notification:badge" user ∷ []
packets_of w (Emit.kicked user) = to_user "auth:banned" user ∷ []
packets_of w _ = []
