-- ===== src/Sockets/State.antt =====
-- What the server keeps of its sockets beside the collections and the Redis keys: the connections
-- with their rooms, the timers of src/messages/messages.gateway.ts and src/calls/calls.service.ts, and
-- the keys `typing:<conversation>:<user>` of src/common/redis/redis.service.ts.
use chatwave_backend.Base.{
  ℕ, ◌+◌, ◌-◌, String, Bool, false, ◌&&◌, not, Option, none, some, List, ◌∷◌, ◌++◌, ◌==◌, leb,
  filter, find, update_first, if◌then◌else◌, any,
}
use chatwave_backend.World.State.{
  World, Result, Action, Exception, bad_request, forbidden, not_found, conflict, unauthorized,
  unavailable, oauth_flow, database_error,
}
use chatwave_backend.World.Ttl.{Entry, lookup, put, del}

-- `room(kind, id)` and `callRoom(id)`
pub data Room : Type 0 where
  user_room conversation_room call_room : ℕ → Room

abbrev pub room_eq : Room → Room → Bool
room_eq (user_room a) (user_room b) = a == b
room_eq (conversation_room a) (conversation_room b) = a == b
room_eq (call_room a) (call_room b) = a == b
room_eq _ _ = false

-- A socket that `handleConnection` has met; `user` is its `data.userId`.
pub record Socket : Type 0 where
  pub id : ℕ
  pub user : ℕ
  pub is_owner : Bool
  pub rooms : List Room

-- A timer of the map `offline`. One that another timer has replaced in the map, or whose entry is
-- deleted, is not listed.
pub record Pending : Type 0 where
  pub user : ℕ
  pub due : ℕ
  pub is_listed : Bool

pub record Hangup : Type 0 where
  pub user : ℕ
  pub due : ℕ

pub record TypingKey : Type 0 where
  pub conversation : ℕ
  pub user : ℕ
  pub expires_at : ℕ

pub data SignalEvent : Type 0 where
  offer answer ice ready : SignalEvent

pub data Event : Type 0 where
  -- what a service has sent, by the name of the event
  named : (name : String) → Event
  typing : (conversation user : ℕ) (typing : Bool) → Event
  participant : (call user : ℕ) (has_joined : Bool) → Event
  media : (call user : ℕ) (muted camera_off : Option Bool) → Event
  signal : SignalEvent → (call from to : ℕ) → Event

-- `server.to(…).except(…).emit(…)`
pub record Packet : Type 0 where
  pub to : Room
  pub except : Option ℕ
  pub event : Event

pub record Server : Type 0 where
  pub world : World
  pub connections : List Socket
  pub pending : List Pending
  pub checks : List ℕ  -- the users whose `socketCount` a fired timer waits for
  pub hangups : List Hangup
  pub typing : List TypingKey
  pub packets : List Packet

abbrev pub in_room : Room → Socket → Bool
in_room r s = any (room_eq r) s.rooms

abbrev is_excepted : Option ℕ → ℕ → Bool
is_excepted none id = false
is_excepted (some e) id = e == id

-- Whether a packet reaches a socket.
unfoldable pub hears : Socket → Packet → Bool
hears s p = in_room p.to s && not (is_excepted p.except s.id)

abbrev pub has_id : ℕ → Socket → Bool
has_id id s = s.id == id

unfoldable pub find_socket : ℕ → Server → Option Socket
find_socket id srv = find (has_id id) srv.connections

abbrev pub enter : Room → Socket → Socket
enter r s = record s { rooms = r ∷ s.rooms }

abbrev pub quit : Room → Socket → Socket
quit r s = record s { rooms = filter (λ x. not (room_eq r x)) s.rooms }

-- `socket.join` and `socket.leave`
unfoldable pub join_room : ℕ → Room → Server → Server
join_room id r srv = record srv { connections = update_first (has_id id) (enter r) srv.connections }

unfoldable pub leave_room : ℕ → Room → Server → Server
leave_room id r srv = record srv { connections = update_first (has_id id) (quit r) srv.connections }

unfoldable pub send_packets : List Packet → Server → Server
send_packets ps srv = record srv { packets = srv.packets ++ ps }

abbrev pub value_or_zero : Option (Entry ℕ) → ℕ
value_or_zero none = 0
value_or_zero (some e) = e.value

-- `socketCount`
unfoldable pub socket_count : ℕ → List (Entry ℕ) → ℕ
socket_count user es = value_or_zero (lookup user es)

-- `addSocketConnection`: INCR
unfoldable pub add_socket_connection : ℕ → List (Entry ℕ) → List (Entry ℕ)
unfolding socket_count
add_socket_connection user es = put user (socket_count user es + 1) 0 es

-- `dropSocketConnection`: DECR, and DEL where that leaves nothing
unfoldable pub drop_socket_connection : ℕ → List (Entry ℕ) → List (Entry ℕ)
unfolding socket_count
drop_socket_connection user es =
    if leb (socket_count user es) 1 then del user es else put user (socket_count user es - 1) 0 es

-- An action of a service on the server's world.
unfoldable pub serve : {A : Type 0} → Action A → Server → Result A × Server
serve m srv = let r = m srv.world in (r.0, record srv { world = r.1 })

-- What a handler acknowledges to its socket.
pub data Ack : Type 0 where
  acked : Ack
  failed : (error : String) → Ack

-- `fail`: only an HttpException tells its message.
unfoldable pub fail : Exception → Ack
fail (bad_request s) = failed s
fail (forbidden s) = failed s
fail (not_found s) = failed s
fail (conflict s) = failed s
fail (unauthorized s) = failed s
fail (unavailable s) = failed s
fail (oauth_flow s) = failed "Request failed"
fail (database_error s) = failed "Request failed"

abbrev is_typing : ℕ → ℕ → TypingKey → Bool
is_typing conversation user k = k.conversation == conversation && k.user == user

-- `clearTyping` and `setTyping`
unfoldable pub clear_typing : ℕ → ℕ → Server → Server
clear_typing conversation user srv = record srv {
  typing = filter (λ k. not (is_typing conversation user k)) srv.typing;
}

unfoldable pub set_typing : ℕ → ℕ → Server → Server
unfolding clear_typing
set_typing conversation user srv =
    let cleared = clear_typing conversation user srv in
    record cleared {
      typing =
          record { conversation = conversation; user = user; expires_at = srv.world.now + 3000 }
          ∷ cleared.typing;
    }
