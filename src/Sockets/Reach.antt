-- ===== src/Sockets/Reach.antt =====
-- Who hears what, who is let in, and whom a timer takes offline.
use chatwave_backend.Base.{
  ◌&&◌, ℕ, ◌≡◌, ◌⊎◌, refl, ap, Bool, true, Option, none, some, List, [], ◌∷◌, ◌++◌, ◌==◌, arith,
  Bool-cases, Option-cases, inl, inr, All, if◌then◌else◌,
}
use chatwave_backend.Base.Rows.{find_row}
use chatwave_backend.Env.{Env, is_mongo_id}
use chatwave_backend.Schema.User.{AuthViewer}
use chatwave_backend.Schema.Message.{me, ReceiptStatus}
use chatwave_backend.Schema.Conversation.{Conversation}
use chatwave_backend.World.State.{
  World, Emit, Result, Exception, ok, thrown, gets, pure, throw, throw_if, or_throw, branch,
  and_then, ◌>>=◌, ◌>>◌, modify,
}
use chatwave_backend.World.Effects.{load_conversation, conversation_id}
use chatwave_backend.World.Ttl.{lookup, lookup-del}
use chatwave_backend.Users.Presence.{clear_live_presence}
use chatwave_backend.Users.Accounts.{go_offline}
use chatwave_backend.Users.Store.{update_user}
use chatwave_backend.Users.Closing.{get_auth_viewer}
use chatwave_backend.Auth.Service.{session_of}
use chatwave_backend.Auth.Guard.{
  Credentials, is_session_of, or_none, resolve, resolve_token, resolve_cookie,
}
use chatwave_backend.Conversations.Service.{assert_member}
use chatwave_backend.Conversations.Details.{if_active}
use chatwave_backend.Messages.Service.{mark}
use chatwave_backend.Sockets.State.{
  user_room, Socket, Packet, Server, failed, fail, in_room, hears, serve,
}
use chatwave_backend.Sockets.Packets.{packets_of, emit_deleted}
use chatwave_backend.Sockets.Session.{authenticate, authenticate_token, check_first, check_offline}
use chatwave_backend.Sockets.Chat.{join, set_typing_state, receipt}
use chatwave_backend.Sockets.Run.{Request, run}
use chatwave_backend.Sockets.Counts.{connected}
use chatwave_backend.Sockets.Sound.{IsSound, Seated}
use chatwave_backend.Sockets.Counted.{run-IsSound}

-- Of these packets, a socket hears those alone that are its user's.
abbrev pub HearsOwn : ℕ → List Packet → Socket → Type 0
HearsOwn user ps s = All (λ p. hears s p ≡ true → s.user ≡ user) ps

-- What a service sends to one user: a message that the user deletes for themselves, a notification, a
-- badge, a preview and the end of a chat.
abbrev pub personal : World → (user : ℕ) (message conversation count : ℕ) → List Packet
personal w user message conversation count =
    packets_of w (Emit.message_deleted message conversation me (some user))
    ++ packets_of w (Emit.notification user message)
    ++ packets_of w (Emit.badge user count)
    ++ packets_of w (Emit.preview user conversation count)
    ++ packets_of w (Emit.conversation_removed user conversation)

hears-user_room :
    (s : Socket) (user : ℕ) (p : Packet)
    → p.to ≡ user_room user
    → Seated s
    → hears s p ≡ true
    → s.user ≡ user
unfolding hears
hears-user_room s user p e seat h = elim (Bool-cases (in_room p.to s)) [
  | inl t ↦ seat user (rw e at t)
  | inr f ↦ absurd (let no = rw f at h in cc)
]

personal-HearsOwn :
    (w : World) (user message conversation count : ℕ) (ss : List Socket)
    → All Seated ss
    → All (HearsOwn user (personal w user message conversation count)) ss
unfolding packets_of emit_deleted
personal-HearsOwn w user message conversation count [] h = tt
personal-HearsOwn w user message conversation count (s ∷ ss) h = (
  (
    hears-user_room s user _ refl h.0,
    (
      hears-user_room s user _ refl h.0,
      (
        hears-user_room s user _ refl h.0,
        (hears-user_room s user _ refl h.0, (hears-user_room s user _ refl h.0, tt)),
      ),
    ),
  ),
  personal-HearsOwn w user message conversation count ss h.1,
)

-- After any run of the sockets from a sound server, what is sent to one user alone (a message deleted
-- for oneself, a notification, a badge, a preview, the end of a chat) is heard by that user's own
-- sockets only.
pub run-personal :
    (env : Env) (rs : List Request) (srv : Server) (user message conversation count : ℕ)
    → IsSound srv
    → All
        (HearsOwn user (personal (run env rs srv).world user message conversation count))
        (run env rs srv).connections
run-personal env rs srv user message conversation count h =
    personal-HearsOwn _ user message conversation count _ (run-IsSound env rs srv h).seated

checked-live :
    (env : Env) (users : List ℕ) (srv : Server) (user : ℕ) (rest : List ℕ) (u : ℕ)
    → users ≡ user ∷ rest
    → IsSound srv
    → lookup u (check_first env users srv).world.presences.live ≡ (
        if user == u && connected user srv.connections == 0
        then none
        else lookup u srv.world.presences.live)
unfolding serve go_offline update_user clear_live_presence ◌>>◌ ◌>>=◌ and_then modify
checked-live env users srv user rest u e h =
    let counted = h.counted user in
    let at = lookup-del u user srv.world.presences.live in
    elim (Bool-cases (connected user srv.connections == 0)) [
      | inl t ↦ rw (e, counted, t) (ground (arith, at))
      | inr f ↦ rw (e, counted, f) (ground arith)
    ]

-- After any run of the sockets from a sound server, with any requests between the timer of
-- handleDisconnect and the answer to its question: the presence key of the user asked about goes where
-- that user has no connected socket then, and stays where they have one; no other user's key changes.
pub check_offline-live :
    (env : Env) (rs : List Request) (srv : Server) (user : ℕ) (rest : List ℕ) (u : ℕ)
    → IsSound srv
    → (run env rs srv).checks ≡ user ∷ rest
    → lookup u (check_offline env (run env rs srv)).world.presences.live ≡ (
        if user == u && connected user (run env rs srv).connections == 0
        then none
        else lookup u (run env rs srv).world.presences.live)
unfolding check_offline
check_offline-live env rs srv user rest u h e =
    checked-live env _ (run env rs srv) user rest u e (run-IsSound env rs srv h)

abbrev second : {A B : Type 0} → Result (A × B) × World → Result B × World
second (ok (a, b), w) = (ok b, w)
second (thrown e, w) = (thrown e, w)

module _ (env : Env) where
  ok-cases :
      {A : Type 0} (r : Result A × World)
      → ((a : A) × (w : World) × (r ≡ (ok a, w)))
        ⊎ ((e : Exception) × (w : World) × (r ≡ (thrown e, w)))
  ok-cases (ok a, w) = inl (a, w, refl)
  ok-cases (thrown e, w) = inr (e, w, refl)

  resolve-token :
      (c : Credentials) (w after : World) (session user : ℕ)
      → resolve env c w ≡ (ok (session, user), after)
      → authenticate_token env (or_none env c.token) c.cookie w ≡ (ok user, after)
  unfolding authenticate_token resolve resolve_token ◌>>=◌ and_then gets pure throw or_throw branch
  resolve-token c w after session user h = elim (Option-cases c.token) [
    | inl n ↦ let e = rw n at h in rw (n, e) refl
    | inr (t, y) ↦ elim (Option-cases (env.jwt_verify t)) [
      | inl n ↦ absurd (let e = rw (y, n) at h in cc)
      | inr (v, n) ↦ elim (Bool-cases (is_session_of env v.0 (session_of v.1 w))) [
        | inl b ↦ let e = rw (y, n, b) at h in rw (y, n, b) (ap second e)
        | inr b ↦ let e = rw (y, n, b) at h in rw (y, n, b, e) refl
      ]
    ]
  ]

  -- Whoever the session guard lets in with a request, the adapter lets in as the same user with a
  -- socket of the same credentials, and leaves the world as the guard does.
  pub authenticate-guard :
      (credentials : Credentials) (w after : World) (session : ℕ) (viewer : AuthViewer)
      → chatwave_backend.Auth.Guard.authenticate env credentials w ≡ (ok (session, viewer), after)
      → authenticate env credentials w ≡ (ok viewer, after)
  unfolding authenticate chatwave_backend.Auth.Guard.authenticate ◌>>=◌ and_then pure throw or_throw
  authenticate-guard credentials w after session viewer h =
      elim (ok-cases (resolve env credentials w)) [
        | inr (x, v, e) ↦ absurd (let no = rw e at h in cc)
        | inl ((s, user), v, e) ↦
            let let_in = resolve-token credentials w v s user e in
            elim (ok-cases (get_auth_viewer env user v)) [
              | inr (x, u, k) ↦ absurd (let no = rw (e, k) at h in cc)
              | inl (found, u, k) ↦ elim (Option-cases found) [
                | inl n ↦ absurd (let no = rw (e, k, n) at h in cc)
                | inr (x, n) ↦ let yes = rw (e, k, n) at h in rw (let_in, k, n) (ap second yes)
              ]
            ]
      ]

  -- Whether the user is an active member of the chat.
  abbrev pub member_row : ℕ → ℕ → World → Option Conversation
  member_row user id w =
      if is_mongo_id env id
      then if_active user (find_row conversation_id id w.conversations)
      else none

  -- A socket whose user is no active member of the chat cannot join its room, type in it or mark its
  -- messages: each is refused, and nothing of the server changes.
  pub refused-outsider :
      (s : Socket) (id : ℕ) (b : Bool) (message : Option ℕ) (kind : ReceiptStatus) (srv : Server)
      → member_row s.user id srv.world ≡ none
      → (join env s id srv ≡ (failed "You cannot access this chat", srv))
        × (set_typing_state env s id b srv ≡ (failed "You cannot access this chat", srv))
        × (receipt env s id message kind srv ≡ (failed "You cannot access this chat", srv))
  unfolding join set_typing_state receipt mark assert_member load_conversation fail serve ◌>>=◌ ◌>>◌
      and_then gets pure throw throw_if or_throw branch
  refused-outsider s id b message kind srv h = elim (Bool-cases (is_mongo_id env id)) [
    | inr f ↦ rw f (refl, refl, refl)
    | inl t ↦ let e = rw t at h in rw (t, e) (refl, refl, refl)
  ]
