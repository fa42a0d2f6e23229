-- ===== src/Sockets/Chat.antt =====
-- The messages of a socket to src/messages/messages.gateway.ts. The id of the chat is what `chatId`
-- reads from the body.
use chatwave_backend.Base.{ℕ, Bool, true, false, Option, some, [], ◌∷◌, if◌then◌else◌}
use chatwave_backend.Base.Text.{Text}
use chatwave_backend.Env.{Env}
use chatwave_backend.Schema.User.{AuthViewer}
use chatwave_backend.Schema.Message.{ReceiptStatus}
use chatwave_backend.World.State.{Result, ok, thrown}
use chatwave_backend.Conversations.Service.{assert_member}
use chatwave_backend.Messages.Service.{send_text, mark}
use chatwave_backend.Sockets.State.{
  conversation_room, Socket, typing, Packet, Server, join_room, leave_room, send_packets, serve,
  Ack, acked, failed, fail, set_typing, clear_typing,
}

abbrev pub answer_of : {A : Type 0} → Result A × Server → Ack × Server
answer_of (ok a, srv) = (acked, srv)
answer_of (thrown e, srv) = (fail e, srv)

abbrev pub then_if_ok :
    {A : Type 0} → Result A × Server → (A → Server → Ack × Server) → Ack × Server
then_if_ok (ok a, srv) next = next a srv
then_if_ok (thrown e, srv) next = (fail e, srv)

abbrev pub viewer_of : Socket → AuthViewer
viewer_of s = record { id = s.user; is_owner = s.is_owner }

module _ (env : Env) where
  -- `conversation:join`, with `guard`, less the message `conversation:joined`, which tells the socket
  -- what its acknowledgement tells it
  unfoldable pub join : Socket → ℕ → Server → Ack × Server
  join s conversation srv =
      then_if_ok (serve (assert_member env s.user conversation) srv)
        λ row after. (acked, join_room s.id (conversation_room conversation) after)

  -- `conversation:leave`
  unfoldable pub leave : Socket → ℕ → Server → Ack × Server
  leave s conversation srv = (acked, leave_room s.id (conversation_room conversation) srv)

  -- `message:send`; `is_text` is whether the body has no other type.
  unfoldable pub send : Socket → ℕ → Bool → Text → Option ℕ → Server → Ack × Server
  send s conversation is_text body reply srv =
      if is_text
      then answer_of (serve (send_text env (viewer_of s) conversation body reply) srv)
      else (failed "Upload media over HTTP first", srv)

  abbrev pub note_typing : Bool → ℕ → ℕ → Server → Server
  note_typing true conversation user srv = set_typing conversation user srv
  note_typing false conversation user srv = clear_typing conversation user srv

  abbrev pub typing_packet : Socket → ℕ → Bool → Packet
  typing_packet s conversation is_typing = record {
    to = conversation_room conversation;
    except = some s.id;
    event = typing conversation s.user is_typing;
  }

  -- `typing:start` and `typing:stop`
  unfoldable pub set_typing_state : Socket → ℕ → Bool → Server → Ack × Server
  set_typing_state s conversation is_typing srv =
      then_if_ok (serve (assert_member env s.user conversation) srv) λ row after. (
        acked,
        send_packets (typing_packet s conversation is_typing ∷ [])
            (note_typing is_typing conversation s.user after),
      )

  -- `message:delivered` and `message:seen`
  unfoldable pub receipt : Socket → ℕ → Option ℕ → ReceiptStatus → Server → Ack × Server
  receipt s conversation message kind srv =
      answer_of (serve (mark env (viewer_of s) conversation kind message) srv)
