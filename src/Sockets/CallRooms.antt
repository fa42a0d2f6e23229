-- ===== src/Sockets/CallRooms.antt =====
-- The messages of a socket to src/calls/calls.gateway.ts. A request body that lacks an id is met by
-- one that no ObjectId is.
use chatwave_backend.Base.{ℕ, Bool, true, false, Option, none, some, [], ◌∷◌}
use chatwave_backend.Env.{Env}
use chatwave_backend.Calls.Rows.{ids}
use chatwave_backend.Calls.Service.{require_participant, mark_joined}
use chatwave_backend.Sockets.State.{
  user_room, call_room, Socket, SignalEvent, media, signal, Packet, Server, join_room, leave_room,
  send_packets, serve, Ack, acked, failed,
}
use chatwave_backend.Sockets.Packets.{packet, emit_participant}
use chatwave_backend.Sockets.Chat.{then_if_ok}

module _ (env : Env) where
  -- `call:join`, with `guard`
  unfoldable pub join_call : Socket → ℕ → Server → Ack × Server
  join_call s call srv = then_if_ok (serve (require_participant env call s.user) srv) λ row after.
      then_if_ok (serve (mark_joined env call s.user) (join_room s.id (call_room call) after))
        λ joined done. (acked, send_packets (emit_participant call s.user true (ids joined)) done)

  -- `call:leave`, which leaves the call as it is
  unfoldable pub leave_call : Socket → ℕ → Server → Ack × Server
  leave_call s call srv = (
    acked,
    send_packets (emit_participant call s.user false []) (leave_room s.id (call_room call) srv),
  )

  abbrev pub media_packet : Socket → ℕ → Option Bool → Option Bool → Packet
  media_packet s call muted camera_off = record {
    to = call_room call;
    except = some s.id;
    event = media call s.user muted camera_off;
  }

  -- `call:media`
  unfoldable pub share_media : Socket → ℕ → Option Bool → Option Bool → Server → Ack × Server
  share_media s call muted camera_off srv =
      then_if_ok (serve (require_participant env call s.user) srv)
        λ row after. (acked, send_packets (media_packet s call muted camera_off ∷ []) after)

  abbrev pub signal_all : Socket → ℕ → SignalEvent → Option ℕ → Server → Ack × Server
  signal_all s call event none srv = (failed "Pick someone to signal", srv)
  signal_all s call event (some to) srv = (
    acked,
    send_packets
        (packet (user_room to) (signal event call s.user to)
          ∷ record { to = call_room call; except = some s.id; event = signal event call s.user to }
          ∷ [])
        srv,
  )

  -- `webrtc:offer`, `webrtc:answer`, `webrtc:ice` and `webrtc:ready`
  unfoldable pub send_signal : Socket → ℕ → SignalEvent → Option ℕ → Server → Ack × Server
  send_signal s call event to srv =
      then_if_ok (serve (require_participant env call s.user) srv)
        λ row after. signal_all s call event to after
