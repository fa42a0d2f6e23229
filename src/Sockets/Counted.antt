-- ===== src/Sockets/Counted.antt =====
-- The soundness of the sockets through the handlers of both gateways, and through any run of them.
use chatwave_backend.Base.{
  ℕ, ◌≡◌, refl, Bool, true, false, Option, none, some, List, [], ◌∷◌, ◌==◌, Bool-cases, inl, inr,
  ltb,
}
use chatwave_backend.Env.{Env}
use chatwave_backend.Schema.User.{AuthViewer}
use chatwave_backend.World.State.{Result, ok, thrown}
use chatwave_backend.Auth.Guard.{Credentials}
use chatwave_backend.Conversations.Service.{assert_member}
use chatwave_backend.Schema.Call.{Call}
use chatwave_backend.Calls.Rows.{ids}
use chatwave_backend.Sockets.Packets.{emit_participant}
use chatwave_backend.Calls.Service.{require_participant, mark_joined}
use chatwave_backend.Calls.Frame.{assert_member-Keeps}
use chatwave_backend.Sockets.State.{
  conversation_room, call_room, Socket, SignalEvent, Pending, Hangup, Server, Ack, acked,
  find_socket, join_room, socket_count, serve, set_typing, clear_typing, send_packets,
}
use chatwave_backend.Sockets.Session.{
  authenticate, connect_viewer, handshake, first_due, drop_due, ask_count, check_first,
  check_offline, fire_offline, hang_up_if_gone, fire_hangup, fresh_socket,
}
use chatwave_backend.Sockets.Chat.{
  answer_of, then_if_ok, viewer_of, join, leave, send, note_typing, typing_packet, set_typing_state,
  receipt,
}
use chatwave_backend.Sockets.CallRooms.{
  join_call, leave_call, share_media, media_packet, signal_all, send_signal,
}
use chatwave_backend.Sockets.Run.{
  Message, join_chat, leave_chat, send_message, report_typing, mark_message, enter_call,
  leave_call_room, call_media, webrtc, Request, arrive, lose, says, offline_timer, offline_check,
  hangup_timer, kick, wait, on_message, if_connected, elapse, handle, run,
}
use chatwave_backend.Sockets.Kept.{
  fr, Counters, go_offline-Keeps, authenticate-Keeps, hangup_all-Keeps, require_participant-Keeps,
  mark_joined-Keeps, mark-Keeps, send_text-Keeps,
}
use chatwave_backend.Sockets.Grace.{unlist-others, All-drop_due, Unique-drop_due, drop_due-others}
use chatwave_backend.Sockets.Sound.{
  IsSound, other-IsSound, serve-IsSound, join-IsSound, leave-IsSound, disconnect-IsSound,
  send_packets-IsSound, kick-IsSound, connect-IsSound,
}

answer_of-IsSound : {A : Type 0} (r : Result A × Server) → IsSound r.1 → IsSound (answer_of r).1
answer_of-IsSound (ok a, srv) h = h
answer_of-IsSound (thrown e, srv) h = h

then_if_ok-IsSound :
    {A : Type 0} (r : Result A × Server) (next : A → Server → Ack × Server)
    → ((a : A) (srv : Server) → IsSound srv → IsSound (next a srv).1)
    → IsSound r.1
    → IsSound (then_if_ok r next).1
then_if_ok-IsSound (ok a, srv) next k h = k a srv h
then_if_ok-IsSound (thrown e, srv) next k h = h

module _ (env : Env) where
  connect_viewer-IsSound :
      (id : ℕ) (r : Result AuthViewer × Server) → IsSound r.1 → IsSound (connect_viewer env id r)
  connect_viewer-IsSound id (ok viewer, srv) h =
      connect-IsSound env (fresh_socket env id viewer) srv refl h
  connect_viewer-IsSound id (thrown e, srv) h = h

  handshake-IsSound :
      (id : ℕ) (credentials : Credentials) (srv : Server)
      → IsSound srv
      → IsSound (handshake env id credentials srv)
  unfolding handshake
  handshake-IsSound id credentials srv h =
      connect_viewer-IsSound id (serve (authenticate env credentials) srv)
        (serve-IsSound _ srv (λ ks. authenticate-Keeps ks env credentials) h)

  asked-IsSound :
      (found : Option Pending) (srv : Server)
      → first_due srv.world.now srv.pending ≡ found
      → IsSound srv
      → IsSound (ask_count found srv)
  asked-IsSound none srv e h = h
  asked-IsSound (some p) srv e h =
      let now = srv.world.now in
      let same =
        unlist-others p.user (drop_due now srv.pending)
          (drop_due-others now srv.pending p h.unique e) in
      record {
        counted = h.counted;
        seated = h.seated;
        graced = rw same (All-drop_due _ now srv.pending h.graced);
        unique = rw same (Unique-drop_due now srv.pending h.unique);
      }

  fire_offline-IsSound : (srv : Server) → IsSound srv → IsSound (fire_offline srv)
  unfolding fire_offline
  fire_offline-IsSound srv h = asked-IsSound _ srv refl h

  checked-IsSound :
      (users : List ℕ) (srv : Server) → IsSound srv → IsSound (check_first env users srv)
  checked-IsSound [] srv h = h
  checked-IsSound (user ∷ users) srv h =
      let left = other-IsSound srv (record srv { checks = users }) refl refl refl h in
      elim (Bool-cases (socket_count user srv.world.sockets == 0)) [
        | inl t ↦ rw t (serve-IsSound _ _ (λ ks. go_offline-Keeps ks env user) left)
        | inr f ↦ rw f left
      ]

  check_offline-IsSound : (srv : Server) → IsSound srv → IsSound (check_offline env srv)
  unfolding check_offline
  check_offline-IsSound srv h = checked-IsSound srv.checks srv h

  hung_up-IsSound :
      (found : Option Hangup) (srv : Server) → IsSound srv → IsSound (hang_up_if_gone env found srv)
  hung_up-IsSound none srv h = h
  hung_up-IsSound (some g) srv h =
      let left = other-IsSound srv _ refl refl refl h in
      elim (Bool-cases (ltb 0 (socket_count g.user srv.world.sockets))) [
        | inl t ↦ rw t left
        | inr f ↦ rw f (serve-IsSound _ _ (λ ks. hangup_all-Keeps ks env g.user) left)
      ]

  fire_hangup-IsSound : (srv : Server) → IsSound srv → IsSound (fire_hangup env srv)
  unfolding fire_hangup
  fire_hangup-IsSound srv h = hung_up-IsSound _ srv h

  member-IsSound :
      (user id : ℕ) (srv : Server) → IsSound srv → IsSound (serve (assert_member env user id) srv).1
  member-IsSound user id srv h =
      serve-IsSound _ srv (λ ks. assert_member-Keeps (Counters ks) (fr ks) env user id) h

  participant-IsSound :
      (call user : ℕ) (srv : Server)
      → IsSound srv
      → IsSound (serve (require_participant env call user) srv).1
  participant-IsSound call user srv h =
      serve-IsSound _ srv (λ ks. require_participant-Keeps ks env call user) h

  note_typing-IsSound :
      (b : Bool) (id user : ℕ) (srv : Server)
      → IsSound srv
      → IsSound (note_typing env b id user srv)
  unfolding set_typing clear_typing
  note_typing-IsSound true id user srv h = other-IsSound srv _ refl refl refl h
  note_typing-IsSound false id user srv h = other-IsSound srv _ refl refl refl h

  signal_all-IsSound :
      (s : Socket) (call : ℕ) (event : SignalEvent) (to : Option ℕ) (srv : Server)
      → IsSound srv
      → IsSound (signal_all env s call event to srv).1
  signal_all-IsSound s call event none srv h = h
  signal_all-IsSound s call event (some to) srv h = send_packets-IsSound _ srv h

  abbrev in_call : Socket → ℕ → Server → Server
  in_call s call srv = join_room s.id (call_room call) srv

  abbrev told_joined : Socket → ℕ → Call → Server → Ack × Server
  told_joined s call joined srv =
      (acked, send_packets (emit_participant call s.user true (ids joined)) srv)

  on_message-IsSound :
      (s : Socket) (m : Message) (srv : Server) → IsSound srv → IsSound (on_message env s m srv).1
  unfolding on_message join leave send set_typing_state receipt join_call leave_call share_media
      send_signal
  on_message-IsSound s (join_chat id) srv h =
      then_if_ok-IsSound (serve (assert_member env s.user id) srv)
        (λ row after. (acked, join_room s.id (conversation_room id) after))
        (λ row after k. join-IsSound (conversation_room id) (λ u. refl) s.id after k)
        (member-IsSound s.user id srv h)
  on_message-IsSound s (leave_chat id) srv h = leave-IsSound s.id _ srv h
  on_message-IsSound s (send_message id true body reply) srv h =
      answer_of-IsSound _
        (serve-IsSound _ srv (λ ks. send_text-Keeps ks env (viewer_of s) id body reply) h)
  on_message-IsSound s (send_message id false body reply) srv h = h
  on_message-IsSound s (report_typing id b) srv h =
      then_if_ok-IsSound (serve (assert_member env s.user id) srv)
        (λ row after.
          (acked, send_packets (typing_packet env s id b ∷ []) (note_typing env b id s.user after)))
        (λ row after k.
          send_packets-IsSound _ (note_typing env b id s.user after)
            (note_typing-IsSound b id s.user after k))
        (member-IsSound s.user id srv h)
  on_message-IsSound s (mark_message id message kind) srv h =
      answer_of-IsSound _
        (serve-IsSound _ srv (λ ks. mark-Keeps ks env (viewer_of s) id kind message) h)
  on_message-IsSound s (enter_call call) srv h =
      then_if_ok-IsSound (serve (require_participant env call s.user) srv)
        (λ row after.
          then_if_ok (serve (mark_joined env call s.user) (in_call s call after))
            (told_joined s call))
        (λ row after k.
          then_if_ok-IsSound (serve (mark_joined env call s.user) (in_call s call after))
            (told_joined s call) (λ joined done l. send_packets-IsSound _ done l)
            (serve-IsSound _ (in_call s call after) (λ ks. mark_joined-Keeps ks env call s.user)
              (join-IsSound (call_room call) (λ u. refl) s.id after k)))
        (participant-IsSound call s.user srv h)
  on_message-IsSound s (leave_call_room call) srv h =
      send_packets-IsSound _ _ (leave-IsSound s.id _ srv h)
  on_message-IsSound s (call_media call muted camera_off) srv h =
      then_if_ok-IsSound (serve (require_participant env call s.user) srv)
        (λ row after. (acked, send_packets (media_packet env s call muted camera_off ∷ []) after))
        (λ row after k. send_packets-IsSound _ after k) (participant-IsSound call s.user srv h)
  on_message-IsSound s (webrtc call event to) srv h =
      then_if_ok-IsSound (serve (require_participant env call s.user) srv)
        (λ row after. signal_all env s call event to after)
        (λ row after k. signal_all-IsSound s call event to after k)
        (participant-IsSound call s.user srv h)

  if_connected-IsSound :
      (found : Option Socket) (m : Message) (srv : Server)
      → IsSound srv
      → IsSound (if_connected env found m srv)
  if_connected-IsSound none m srv h = h
  if_connected-IsSound (some s) m srv h = on_message-IsSound s m srv h

  handle-IsSound : (r : Request) (srv : Server) → IsSound srv → IsSound (handle env r srv)
  unfolding handle
  handle-IsSound (arrive id credentials) srv h = handshake-IsSound id credentials srv h
  handle-IsSound (lose id) srv h = disconnect-IsSound id srv h
  handle-IsSound (says id m) srv h = if_connected-IsSound (find_socket id srv) m srv h
  handle-IsSound offline_timer srv h = fire_offline-IsSound srv h
  handle-IsSound offline_check srv h = check_offline-IsSound srv h
  handle-IsSound hangup_timer srv h = fire_hangup-IsSound srv h
  handle-IsSound (kick user) srv h = kick-IsSound user srv h
  handle-IsSound (wait ms) srv h = other-IsSound srv (elapse ms srv) refl refl refl h

-- Whatever sockets arrive, send and vanish, and whenever the timers fire: from a sound server any run
-- leads to a sound one. Each user's counter is the number of the user's connected sockets; only a
-- user's own sockets sit in the user's personal room; and a timer that waits to put a user offline is
-- the only one of its user, can be cancelled through the map, and its user has no socket.
pub run-IsSound :
    (env : Env) (rs : List Request) (srv : Server) → IsSound srv → IsSound (run env rs srv)
unfolding run
run-IsSound env [] srv h = h
run-IsSound env (r ∷ rs) srv h = run-IsSound env rs (handle env r srv) (handle-IsSound env r srv h)
