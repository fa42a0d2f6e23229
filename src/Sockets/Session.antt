-- ===== src/Sockets/Session.antt =====
-- Signing in, connecting and disconnecting: src/messages/adapters/socket-session.adapter.ts, the
-- connection handlers of both gateways and the timers that they set.
use chatwave_backend.Base.{
  ℕ, ◌+◌, Bool, true, false, ◌&&◌, not, Option, none, some, List, [], ◌∷◌, ◌++◌, ◌==◌, leb, ltb,
  filter, any, map, if◌then◌else◌,
}
use chatwave_backend.Env.{Env}
use chatwave_backend.Schema.User.{User, AuthViewer}
use chatwave_backend.World.State.{
  Result, ok, thrown, Action, pure, gets, ◌>>=◌, or_throw, branch, unauthorized,
}
use chatwave_backend.Base.Rows.{find_row}
use chatwave_backend.World.Effects.{user_id}
use chatwave_backend.Users.{visible_user}
use chatwave_backend.Users.Accounts.{mark_online, go_offline}
use chatwave_backend.Users.Closing.{get_auth_viewer}
use chatwave_backend.Auth.Service.{session_of}
use chatwave_backend.Auth.Guard.{Credentials, is_session_of, or_none, resolve_cookie}
use chatwave_backend.Calls.Service.{hangup_all_for_user}
use chatwave_backend.Sockets.State.{
  Room, user_room, conversation_room, Socket, Pending, Hangup, Server, in_room, find_socket,
  join_room, send_packets, socket_count, add_socket_connection, drop_socket_connection, serve,
}
use chatwave_backend.Sockets.Packets.{to_user}

-- `offline.delete(user)`, which leaves the timer running
unfoldable pub unlist : ℕ → List Pending → List Pending
unlist user ps = map (λ p. if p.user == user then record p { is_listed = false } else p) ps

-- `clearTimeout(offline.get(user))` with `offline.delete(user)`
unfoldable pub cancel : ℕ → List Pending → List Pending
cancel user ps = filter (λ p. not (p.user == user && p.is_listed)) ps

-- `offline.set(user, setTimeout(…, 2000))`
unfoldable pub set_offline : ℕ → ℕ → List Pending → List Pending
unfolding unlist
set_offline now user ps =
    unlist user ps ++ record { user = user; due = now + 2000; is_listed = true } ∷ []

-- `hangupIfDisconnected` of src/calls/calls.service.ts
unfoldable pub hangup_if_disconnected : ℕ → Server → Server
hangup_if_disconnected user srv = record srv {
  hangups = srv.hangups ++ record { user = user; due = srv.world.now + 2500 } ∷ [];
}

abbrev pub remove_first : ℕ → List Socket → List Socket
remove_first id [] = []
remove_first id (s ∷ ss) = if s.id == id then ss else s ∷ remove_first id ss

unfoldable pub drop_count : ℕ → Server → Server
drop_count user srv =
    let w = srv.world in
    record srv { world = record w { sockets = drop_socket_connection user w.sockets } }

unfoldable pub add_count : ℕ → Server → Server
add_count user srv =
    let w = srv.world in
    record srv { world = record w { sockets = add_socket_connection user w.sockets } }

-- `handleDisconnect` of the chat gateway, for a socket that is signed in
unfoldable pub chat_disconnect : ℕ → Server → Server
unfolding drop_count
chat_disconnect user srv =
    let dropped = drop_count user srv in
    if ltb 0 (socket_count user dropped.world.sockets)
    then dropped
    else record dropped { pending = set_offline srv.world.now user srv.pending }

-- A socket is gone: socket.io takes it out of its rooms, and both gateways hear of it.
unfoldable pub disconnect_found : Socket → Server → Server
disconnect_found s srv =
    hangup_if_disconnected s.user
      (chat_disconnect s.user (record srv { connections = remove_first s.id srv.connections }))

abbrev pub disconnect_some : Option Socket → Server → Server
disconnect_some none srv = srv
disconnect_some (some s) srv = disconnect_found s srv

unfoldable pub disconnect : ℕ → Server → Server
unfolding disconnect_found
disconnect id srv = disconnect_some (find_socket id srv) srv

-- The first timer that is due; `none` if none is.
abbrev pub first_due : ℕ → List Pending → Option Pending
first_due now [] = none
first_due now (p ∷ ps) = if leb p.due now then some p else first_due now ps

abbrev pub drop_due : ℕ → List Pending → List Pending
drop_due now [] = []
drop_due now (p ∷ ps) = if leb p.due now then ps else p ∷ drop_due now ps

abbrev pub hangup_due : ℕ → List Hangup → Option Hangup
hangup_due now [] = none
hangup_due now (h ∷ hs) = if leb h.due now then some h else hangup_due now hs

abbrev drop_hangup : ℕ → List Hangup → List Hangup
drop_hangup now [] = []
drop_hangup now (h ∷ hs) = if leb h.due now then hs else h ∷ drop_hangup now hs

abbrev pub ids_in : Room → List Socket → List ℕ
ids_in r ss = map (λ s. s.id) (filter (in_room r) ss)

abbrev pub disconnect_all : List ℕ → Server → Server
disconnect_all [] srv = srv
disconnect_all (id ∷ ids) srv = disconnect_all ids (disconnect id srv)

-- `kickBanned`
unfoldable pub kick_banned : ℕ → Server → Server
kick_banned user srv =
    disconnect_all (ids_in (user_room user) srv.connections)
      (send_packets (to_user "auth:banned" user ∷ []) srv)

abbrev pub ask_count : Option Pending → Server → Server
ask_count none srv = srv
ask_count (some p) srv = record srv {
  pending = unlist p.user (drop_due srv.world.now srv.pending);
  checks = srv.checks ++ p.user ∷ [];
}

-- The callback of the timer of `handleDisconnect`, as far as the question to Redis.
unfoldable pub fire_offline : Server → Server
unfolding unlist
fire_offline srv = ask_count (first_due srv.world.now srv.pending) srv

module _ (env : Env) where
  unfoldable pub authenticate_token : Option (ℕ × ℕ) → Option ℕ → Action ℕ
  authenticate_token none cookie = do (session, user) ← resolve_cookie env cookie; pure user
  authenticate_token (some (user, session)) cookie = do
    found ← gets (session_of session)
    branch (is_session_of env user found) (pure user)
        do (session', user') ← resolve_cookie env cookie; pure user'

  -- `authenticate` of the adapter: a token that does not verify, or whose session is not its user's,
  -- leaves it to the cookie.
  unfoldable pub authenticate : Credentials → Action AuthViewer
  authenticate credentials = do
    user ← authenticate_token (or_none env credentials.token) credentials.cookie
    or_throw (← get_auth_viewer env user) (unauthorized "Please sign in again")

  abbrev pub enter_own_room : Socket → Result User × Server → Server
  enter_own_room s (ok saved, after) = join_room s.id (user_room s.user) after
  enter_own_room s (thrown e, after) = after

  -- `handleConnection` from the user's row on; a missing or hidden one is refused, and an exception of
  -- `markOnline` leaves the socket connected, in no room.
  unfoldable pub admit : Socket → Option User → Server → Server
  admit s none srv = disconnect s.id srv
  admit s (some row) srv = enter_own_room s (serve (mark_online env row) srv)

  abbrev pub fresh_socket : ℕ → AuthViewer → Socket
  fresh_socket id viewer = record {
    id = id;
    user = viewer.id;
    is_owner = viewer.is_owner;
    rooms = [];
  }

  -- `handleConnection`
  unfoldable pub connect : Socket → Server → Server
  unfolding cancel add_count admit
  connect s srv =
      let counted =
        add_count s.user
          (record srv { connections = s ∷ srv.connections; pending = cancel s.user srv.pending }) in
      admit s (visible_user (find_row user_id s.user srv.world.users)) counted

  abbrev pub connect_viewer : ℕ → Result AuthViewer × Server → Server
  connect_viewer id (ok viewer, after) = connect (fresh_socket id viewer) after
  connect_viewer id (thrown e, after) = after

  -- The handshake: a socket that `authenticate` refuses does not connect.
  unfoldable pub handshake : ℕ → Credentials → Server → Server
  unfolding authenticate
  handshake id credentials srv = connect_viewer id (serve (authenticate credentials) srv)

  abbrev pub check_first : List ℕ → Server → Server
  check_first [] srv = srv
  check_first (user ∷ users) srv =
      let left = record srv { checks = users } in
      if socket_count user srv.world.sockets == 0
      then (serve (go_offline env user) left).1
      else left

  -- What follows once `socketCount` answers, which other requests may come before.
  unfoldable pub check_offline : Server → Server
  check_offline srv = check_first srv.checks srv

  abbrev pub hang_up_if_gone : Option Hangup → Server → Server
  hang_up_if_gone none srv = srv
  hang_up_if_gone (some h) srv =
      let left = record srv { hangups = drop_hangup srv.world.now srv.hangups } in
      if ltb 0 (socket_count h.user srv.world.sockets)
      then left
      else (serve (hangup_all_for_user env h.user) left).1

  -- The callback of the timer of `hangupIfDisconnected`.
  unfoldable pub fire_hangup : Server → Server
  fire_hangup srv = hang_up_if_gone (hangup_due srv.world.now srv.hangups) srv

-- `isInConversation`
unfoldable pub is_in_conversation : ℕ → ℕ → Server → Bool
is_in_conversation user conversation srv =
    any (λ s. s.user == user) (filter (in_room (conversation_room conversation)) srv.connections)
