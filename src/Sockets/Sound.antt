-- ===== src/Sockets/Sound.antt =====
-- What holds of the sockets whatever reaches the server: the proofs for each handler of both gateways.
use chatwave_backend.Base.{
  ℕ, ◌+◌, ◌≡◌, ◌≢◌, refl, sym, subst, ◌∙◌, true, false, not, Option, none, some, List, [], ◌∷◌,
  ◌==◌, if◌then◌else◌, find, filter, any, update_first, arith, Bool-cases, Option-cases, inl, inr,
  All, ltb, ==-refl, ==→eq,
}
use chatwave_backend.Base.Rows.{Unique, Unique-filter}
use chatwave_backend.Env.{Env}
use chatwave_backend.Schema.User.{User}
use chatwave_backend.World.State.{Result, ok, thrown, Action}
use chatwave_backend.World.Ttl.{Entry}
use chatwave_backend.World.Keeps.{Keeps}
use chatwave_backend.Sockets.State.{
  Room, user_room, Socket, Packet, Server, in_room, has_id, enter, quit, room_eq, find_socket,
  join_room, leave_room, send_packets, socket_count, serve,
}
use chatwave_backend.Sockets.Session.{
  cancel, hangup_if_disconnected, remove_first, drop_count, add_count, chat_disconnect,
  disconnect_found, disconnect, disconnect_all, kick_banned, connect, admit, ids_in, enter_own_room,
}
use chatwave_backend.Sockets.Packets.{to_user}
use chatwave_backend.Users.Accounts.{mark_online}
use chatwave_backend.Sockets.Counts.{
  connected, count-add, count-drop, find-has_id, connected-remove_first, connected-enter,
  connected-quit,
}
use chatwave_backend.Sockets.Kept.{Counters, mark_online-Keeps}
use chatwave_backend.Sockets.Grace.{Graced, pending_user, Graced-mono, cancel-Graced, snoc-Graced}

-- A socket in a user's personal room is signed in as that user.
abbrev pub Seated : Socket → Type 0
Seated s = (u : ℕ) → in_room (user_room u) s ≡ true → s.user ≡ u

pub record IsSound (srv : Server) : Type 0 where
  pub counted : (u : ℕ) → socket_count u srv.world.sockets ≡ connected u srv.connections
  pub seated : All Seated srv.connections
  pub graced : All (Graced srv.connections) srv.pending
  pub unique : Unique pending_user srv.pending

-- A change of what the sockets do not stand on.
pub other-IsSound :
    (srv after : Server)
    → after.world.sockets ≡ srv.world.sockets
    → after.connections ≡ srv.connections
    → after.pending ≡ srv.pending
    → IsSound srv
    → IsSound after
other-IsSound srv after e f g h = record {
  counted = λ u. rw (e, f) (h.counted u);
  seated = rw f h.seated;
  graced = rw (f, g) h.graced;
  unique = rw g h.unique;
}

pub serve-IsSound :
    {A : Type 0} (m : Action A) (srv : Server)
    → ((ks : List (Entry ℕ)) → Keeps (Counters ks) m)
    → IsSound srv
    → IsSound (serve m srv).1
unfolding serve
serve-IsSound m srv k h =
    other-IsSound srv _ ((k srv.world.sockets).apply srv.world refl) refl refl h

-- Entering a room that is no other user's.
Seated-update :
    (id : ℕ) (f : Socket → Socket) (ss : List Socket)
    → ((s : Socket) → Seated s → Seated (f s))
    → All Seated ss
    → All Seated (update_first (has_id id) f ss)
Seated-update id f [] k h = tt
Seated-update id f (s ∷ ss) k h = elim (Bool-cases (s.id == id)) [
  | inl t ↦ rw t (k s h.0, h.1)
  | inr e ↦ rw e (h.0, Seated-update id f ss k h.1)
]

any-filter :
    (r x : Room) (rs : List Room)
    → any (room_eq r) (filter (λ y. not (room_eq x y)) rs) ≡ true
    → any (room_eq r) rs ≡ true
any-filter r x [] h = h
any-filter r x (y ∷ rs) h = ground (arith, any-filter r x rs)

pub leave-IsSound : (id : ℕ) (r : Room) (srv : Server) → IsSound srv → IsSound (leave_room id r srv)
unfolding leave_room
leave-IsSound id r srv h = record {
  counted = λ u. h.counted u ∙ sym (connected-quit u id r srv.connections);
  seated =
      Seated-update id (quit r) srv.connections
        (λ s k u e. k u (any-filter (user_room u) r s.rooms e)) h.seated;
  graced =
      Graced-mono srv.connections _ srv.pending (λ u e. connected-quit u id r srv.connections ∙ e)
        h.graced;
  unique = h.unique;
}

module _ (r : Room) (free : (u : ℕ) → room_eq (user_room u) r ≡ false) where
  pub join-IsSound : (id : ℕ) (srv : Server) → IsSound srv → IsSound (join_room id r srv)
  unfolding join_room
  join-IsSound id srv h = record {
    counted = λ u. h.counted u ∙ sym (connected-enter u id r srv.connections);
    seated =
        Seated-update id (enter r) srv.connections (λ s k u e. k u (rw (free u) at e)) h.seated;
    graced =
        Graced-mono srv.connections _ srv.pending
          (λ u e. connected-enter u id r srv.connections ∙ e) h.graced;
    unique = h.unique;
  }

-- Entering one's own room.
join_own-IsSound :
    (s : Socket) (cs : List Socket) (srv : Server)
    → srv.connections ≡ s ∷ cs
    → IsSound srv
    → IsSound (join_room s.id (user_room s.user) srv)
unfolding join_room
join_own-IsSound s cs srv e h =
    let seated = subst (All Seated) e h.seated in
    record {
      counted = λ u. h.counted u ∙ sym (connected-enter u s.id _ srv.connections);
      seated =
          rw (e, ==-refl s.id)
            (
              (λ u t. elim (Bool-cases (u == s.user)) [
                | inl same ↦ sym (==→eq u s.user same)
                | inr ne ↦ seated.0 u (rw ne at t)
              ]),
              seated.1,
            );
      graced =
          Graced-mono srv.connections _ srv.pending
            (λ u e. connected-enter u s.id _ srv.connections ∙ e) h.graced;
      unique = h.unique;
    }

module _ (id : ℕ) (s : Socket) (srv : Server) (found : find_socket id srv ≡ some s)
    (h : IsSound srv) where
  abbrev left : List Socket
  left = remove_first s.id srv.connections

  removed :
      (u : ℕ) → connected u srv.connections ≡ (if s.user == u then 1 else 0) + connected u left
  unfolding find_socket
  removed u =
      let same = find-has_id id srv.connections s found in
      rw same (connected-remove_first u id srv.connections s found)

  counted_left : (u : ℕ) → socket_count u (drop_count s.user srv).world.sockets ≡ connected u left
  unfolding drop_count
  counted_left u =
      let dropped = count-drop u s.user srv.world.sockets in
      let before = h.counted u in let was = removed u in omega (arith)

  still_none : (u : ℕ) → connected u srv.connections ≡ 0 → connected u left ≡ 0
  still_none u e = let was = removed u in omega arith

  had_one : connected s.user srv.connections ≢ 0
  had_one e = let was = removed s.user in let same = ==-refl s.user in absurd (ground arith)

  remove-Seated : (ss : List Socket) → All Seated ss → All Seated (remove_first s.id ss)
  remove-Seated [] k = tt
  remove-Seated (x ∷ ss) k = elim (Bool-cases (x.id == s.id)) [
    | inl t ↦ rw t k.1
    | inr f ↦ rw f (k.0, remove-Seated ss k.1)
  ]

  pub disconnect_found-IsSound : IsSound (disconnect_found s srv)
  unfolding disconnect_found hangup_if_disconnected chat_disconnect drop_count
  disconnect_found-IsSound =
      elim (Bool-cases (ltb 0 (socket_count s.user (drop_count s.user srv).world.sockets))) [
        | inl t ↦ rw t (record {
          counted = counted_left;
          seated = remove-Seated srv.connections h.seated;
          graced = Graced-mono srv.connections left srv.pending still_none h.graced;
          unique = h.unique;
        })
        | inr f ↦
            let gone : connected s.user left ≡ 0 = let c = counted_left s.user in ground arith in
            let after =
              snoc-Graced srv.connections left srv.world.now s.user srv.pending still_none had_one
                gone h.graced h.unique in
            rw f (record {
              counted = counted_left;
              seated = remove-Seated srv.connections h.seated;
              graced = after.0;
              unique = after.1;
            })
      ]

pub disconnect-IsSound : (id : ℕ) (srv : Server) → IsSound srv → IsSound (disconnect id srv)
unfolding disconnect find_socket
disconnect-IsSound id srv h = elim (Option-cases (find (has_id id) srv.connections)) [
  | inl e ↦ rw e h
  | inr (s, e) ↦ rw e (disconnect_found-IsSound id s srv e h)
]

pub disconnect_all-IsSound :
    (ids : List ℕ) (srv : Server) → IsSound srv → IsSound (disconnect_all ids srv)
disconnect_all-IsSound [] srv h = h
disconnect_all-IsSound (id ∷ ids) srv h =
    disconnect_all-IsSound ids (disconnect id srv) (disconnect-IsSound id srv h)

pub send_packets-IsSound :
    (ps : List Packet) (srv : Server) → IsSound srv → IsSound (send_packets ps srv)
unfolding send_packets
send_packets-IsSound ps srv h = other-IsSound srv _ refl refl refl h

pub kick-IsSound : (user : ℕ) (srv : Server) → IsSound srv → IsSound (kick_banned user srv)
unfolding kick_banned
kick-IsSound user srv h =
    let told = to_user "auth:banned" user ∷ [] in
    disconnect_all-IsSound (ids_in (user_room user) srv.connections) (send_packets told srv)
      (send_packets-IsSound told srv h)

abbrev counted_server : Socket → Server → Server
counted_server s srv =
    add_count s.user
      (record srv { connections = s ∷ srv.connections; pending = cancel s.user srv.pending })

nowhere : (s : Socket) (u : ℕ) → s.rooms ≡ [] → in_room (user_room u) s ≡ true → ⊥
nowhere s u e t = let none_in = rw e at t in cc

counted-IsSound :
    (s : Socket) (srv : Server) → s.rooms ≡ [] → IsSound srv → IsSound (counted_server s srv)
unfolding add_count connected cancel
counted-IsSound s srv e h = record {
  counted = λ u.
      let added = count-add u s.user srv.world.sockets in let before = h.counted u in omega arith;
  seated = ((λ u t. absurd (nowhere s u e t)), h.seated);
  graced = cancel-Graced srv.connections s srv.pending h.graced;
  unique = Unique-filter pending_user _ srv.pending h.unique;
}

module _ (env : Env) (s : Socket) (cs : List Socket) where
  entered-IsSound :
      (r : Result User × Server)
      → r.1.connections ≡ s ∷ cs
      → IsSound r.1
      → IsSound (enter_own_room env s r)
  entered-IsSound (ok saved, after) e h = join_own-IsSound s cs after e h
  entered-IsSound (thrown x, after) e h = h

  admit-IsSound :
      (found : Option User) (srv : Server)
      → srv.connections ≡ s ∷ cs
      → IsSound srv
      → IsSound (admit env s found srv)
  unfolding admit serve
  admit-IsSound none srv e h = disconnect-IsSound s.id srv h
  admit-IsSound (some row) srv e h =
      entered-IsSound (serve (mark_online env row) srv) e
        (serve-IsSound (mark_online env row) srv (λ ks. mark_online-Keeps ks env row) h)

pub connect-IsSound :
    (env : Env) (s : Socket) (srv : Server)
    → s.rooms ≡ []
    → IsSound srv
    → IsSound (connect env s srv)
unfolding connect add_count
connect-IsSound env s srv e h =
    admit-IsSound env s srv.connections _ (counted_server s srv) refl (counted-IsSound s srv e h)
