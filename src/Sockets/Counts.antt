-- ===== src/Sockets/Counts.antt =====
-- The counters `socks:<user>` count the connected sockets; a personal room holds its user's sockets;
-- and a user with a timer that would put them offline has no socket.
use chatwave_backend.Base.{
  ℕ, ◌+◌, ◌-◌, ◌≡◌, refl, some, List, [], ◌∷◌, ◌==◌, if◌then◌else◌, find, update_first, arith,
}
use chatwave_backend.World.Ttl.{Entry, lookup-put, lookup-del}
use chatwave_backend.Sockets.State.{
  Room, Socket, has_id, enter, quit, socket_count, add_socket_connection, drop_socket_connection,
}
use chatwave_backend.Sockets.Session.{remove_first}

-- The number of a user's sockets.
unfoldable pub connected : ℕ → List Socket → ℕ
connected user [] = 0
connected user (s ∷ ss) = (if s.user == user then 1 else 0) + connected user ss

module _ (j user : ℕ) (es : List (Entry ℕ)) where
  pub count-add :
      socket_count j (add_socket_connection user es)
      ≡ (if user == j then 1 else 0) + socket_count j es
  unfolding socket_count add_socket_connection
  count-add = ground (arith, lookup-put j user (socket_count user es + 1) 0 es)

  pub count-drop :
      socket_count j (drop_socket_connection user es)
      ≡ socket_count j es - (if user == j then 1 else 0)
  unfolding socket_count drop_socket_connection
  count-drop =
      ground (arith, lookup-put j user (socket_count user es - 1) 0 es, lookup-del j user es)

pub find-has_id :
    (id : ℕ) (ss : List Socket) (s : Socket) → find (has_id id) ss ≡ some s → s.id ≡ id
find-has_id id [] s e = absurd (ground arith)
find-has_id id (x ∷ ss) s e = ground (arith, find-has_id id ss s)

pub connected-remove_first :
    (u id : ℕ) (ss : List Socket) (s : Socket)
    → find (has_id id) ss ≡ some s
    → connected u ss ≡ (if s.user == u then 1 else 0) + connected u (remove_first id ss)
unfolding connected
connected-remove_first u id [] s e = absurd (ground arith)
connected-remove_first u id (x ∷ ss) s e = ground (arith, connected-remove_first u id ss s)

pub connected-enter :
    (u id : ℕ) (r : Room) (ss : List Socket)
    → connected u (update_first (has_id id) (enter r) ss) ≡ connected u ss
unfolding connected
connected-enter u id r [] = refl
connected-enter u id r (x ∷ ss) = ground (arith, connected-enter u id r ss)

pub connected-quit :
    (u id : ℕ) (r : Room) (ss : List Socket)
    → connected u (update_first (has_id id) (quit r) ss) ≡ connected u ss
unfolding connected
connected-quit u id r [] = refl
connected-quit u id r (x ∷ ss) = ground (arith, connected-quit u id r ss)
