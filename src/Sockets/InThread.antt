-- ===== src/Sockets/InThread.antt =====
-- The gateway tells the notifications who has a chat open: `isInConversation` behind the test
-- `skipIfInThread` of src/notifications/notifications.service.ts.
use chatwave_backend.Base.{
  ℕ, ◌≡◌, refl, ◌||◌, true, not, some, List, [], ◌∷◌, ◌==◌, find, any, filter, update_first, ltb,
  arith, Bool-cases, inl, inr, ==-refl, ==→eq, ap, ◌∙◌, Bool, false, Option, ◌++◌,
}
use chatwave_backend.Env.{Env, is_mongo_id}
use chatwave_backend.Schema.Conversation.{Conversation}
use chatwave_backend.World.State.{
  World, Emit, Action, gets, pure, and_then, ◌>>=◌, ◌>>◌, modify, branch, throw, throw_if, or_throw,
}
use chatwave_backend.World.Keeps.{
  Keeps, pure-Keeps, gets-Keeps, modify-Keeps, bind-Keeps, seq-Keeps, when-Keeps, branch-Keeps,
  for_each-Keeps,
}
use chatwave_backend.Schema.Notification.{Notification}
use chatwave_backend.Schema.User.{User}
use chatwave_backend.Users.{find_by_id}
use chatwave_backend.Notifications.Digests.{bump_digest}
use chatwave_backend.World.Ttl.{lookup}
use chatwave_backend.Notifications.Service.{
  NotifyInput, MessageEvent, on_message_created, notify_member, message_input, deliver,
  new_notification, is_self, bumped_rate, notify_rate_max, notify, notify_limited, notify_reachable,
}
use chatwave_backend.Sockets.State.{
  conversation_room, Socket, Server, in_room, has_id, enter, find_socket, join_room, serve,
}
use chatwave_backend.Sockets.Session.{is_in_conversation}
use chatwave_backend.Sockets.Chat.{join}
use chatwave_backend.Sockets.Reach.{member_row}
use chatwave_backend.World.Effects.{load_conversation, emit, fresh_id}
use chatwave_backend.Conversations.Service.{assert_member}

-- The emits that notify the user.
abbrev pub is_told : ℕ → Emit → Bool
is_told user (Emit.notification u id) = u == user
is_told user (Emit.badge u count) = u == user
is_told user _ = false

-- The user's notifications, and what has been sent to notify them.
abbrev pub IsUntold : ℕ → List Notification → List Emit → World → Type 0
IsUntold user kept sent w =
    (filter (λ n. n.user == user) w.notifications ≡ kept) × (filter (is_told user) w.outbox ≡ sent)

filter-end :
    {A : Type 0} (p : A → Bool) (xs : List A) (x : A)
    → p x ≡ false
    → filter p (xs ++ x ∷ []) ≡ filter p xs
filter-end p [] x f = rw f refl
filter-end p (y ∷ xs) x f = ground (arith, filter-end p xs x)

entered :
    (id conversation : ℕ) (s : Socket) (ss : List Socket)
    → find (has_id id) ss ≡ some s
    → any
        (λ x. x.user == s.user)
        (filter
          (in_room (conversation_room conversation))
          (update_first (has_id id) (enter (conversation_room conversation)) ss))
      ≡ true
entered id conversation s [] e = absurd cc
entered id conversation s (x ∷ ss) e =
    let at = ==-refl conversation in
    let user = ==-refl s.user in ground (arith, entered id conversation s ss)

module _ (env : Env) where
  -- Where the gateway knows a socket of the user in the chat's room, a notification that asks to be
  -- skipped there is not stored and sends nothing, whatever the world.
  notify_quiet :
      (srv : Server) (input : NotifyInput) (conversation : ℕ) (w : World)
      → input.conversation ≡ some conversation
      → input.skip_if_in_thread ≡ true
      → is_in_conversation input.user conversation srv ≡ true
      → ((notify env (λ user chat. is_in_conversation user chat srv) input w).1.notifications
          ≡ w.notifications)
        × ((notify env (λ user chat. is_in_conversation user chat srv) input w).1.outbox ≡ w.outbox)
  unfolding notify notify_limited notify_reachable ◌>>=◌ ◌>>◌ and_then gets pure modify branch
  notify_quiet srv input conversation w e skip there =
      elim (Bool-cases (is_self input.actor input.user || not (is_mongo_id env input.user))) [
        | inl t ↦ rw t (refl, refl)
        | inr f ↦
            let count = bumped_rate (lookup input.user w.notify_rates) w.now input.user in
            elim (Bool-cases (ltb notify_rate_max count)) [
              | inl t ↦ rw (f, t) (refl, refl)
              | inr n ↦ rw (f, n, skip, e, there) (refl, refl)
            ]
      ]

  join-opens :
      (s : Socket) (id : ℕ) (row : Conversation) (srv : Server)
      → find_socket s.id srv ≡ some s
      → member_row env s.user id srv.world ≡ some row
      → is_in_conversation s.user id (join env s id srv).1 ≡ true
  unfolding is_in_conversation find_socket join join_room assert_member load_conversation serve
      ◌>>=◌ ◌>>◌ and_then gets pure throw throw_if or_throw branch
  join-opens s id row srv found h = elim (Bool-cases (is_mongo_id env id)) [
    | inr f ↦ absurd (let no = rw f at h in cc)
    | inl t ↦ let e = rw t at h in rw (t, e) (entered s.id id s srv.connections found)
  ]

  module _ (srv : Server) (user : ℕ) (kept : List Notification) (sent : List Emit) where
    abbrev in_thread : ℕ → ℕ → Bool
    in_thread someone chat = is_in_conversation someone chat srv

    emit-IsUntold : (e : Emit) → is_told user e ≡ false → Keeps (IsUntold user kept sent) (emit e)
    unfolding emit
    emit-IsUntold e f =
        modify-Keeps _ _ (λ w h. (h.0, filter-end (is_told user) w.outbox e f ∙ h.1))

    deliver-IsUntold :
        (input : NotifyInput) (recipient : Option User)
        → input.user == user ≡ false
        → Keeps (IsUntold user kept sent) (deliver env in_thread input recipient)
    unfolding deliver fresh_id new_notification bump_digest
    deliver-IsUntold input recipient f = bind-Keeps _ (gets-Keeps _ _) (λ now.
        bind-Keeps _ record { apply = λ w h. h }
          (λ id.
            seq-Keeps _ (modify-Keeps _ _ (λ w h. (filter-end _ w.notifications _ f ∙ h.0, h.1))) (
              seq-Keeps _ (when-Keeps _ _ (modify-Keeps _ _ (λ w h. h))) (
                bind-Keeps _ (gets-Keeps _ _) (λ count.
                  seq-Keeps _ (emit-IsUntold _ f)
                    (seq-Keeps _ (emit-IsUntold _ f) (pure-Keeps _ _)))))))

    notify_other :
        (input : NotifyInput)
        → input.user == user ≡ false
        → Keeps (IsUntold user kept sent) (notify env in_thread input)
    unfolding notify notify_limited notify_reachable find_by_id
    notify_other input f = branch-Keeps _ _ (pure-Keeps _ _) (
        bind-Keeps _
          (bind-Keeps _ (gets-Keeps _ _)
            (λ count. seq-Keeps _ (modify-Keeps _ _ (λ w h. h)) (pure-Keeps _ _)))
          (λ limited. branch-Keeps _ _ (pure-Keeps _ _) (
            branch-Keeps _ _ (pure-Keeps _ _) (
              bind-Keeps _ (gets-Keeps _ _) (λ recipient.
                branch-Keeps _ _ (pure-Keeps _ _) (deliver-IsUntold input recipient f))))))

    notify-IsUntold :
        (event : MessageEvent) (someone : ℕ)
        → is_in_conversation user event.conversation.id srv ≡ true
        → Keeps
            (IsUntold user kept sent)
            (notify env in_thread (message_input env in_thread event someone))
    notify-IsUntold event someone there = elim (Bool-cases (someone == user)) [
      | inr f ↦ notify_other (message_input env in_thread event someone) f
      | inl t ↦
          let same = ==→eq someone user t in
          record {
            apply = λ w h.
                let quiet =
                  notify_quiet srv (message_input env in_thread event someone) event.conversation.id
                    w refl refl (rw same there) in
                (
                  ap (filter (λ n. n.user == user)) quiet.0 ∙ h.0,
                  ap (filter (is_told user)) quiet.1 ∙ h.1,
                );
          }
    ]

    on_message_created-IsUntold :
        (event : MessageEvent)
        → is_in_conversation user event.conversation.id srv ≡ true
        → Keeps (IsUntold user kept sent) (on_message_created env in_thread event)
    unfolding on_message_created notify_member find_by_id
    on_message_created-IsUntold event there = when-Keeps _ _ (
        for_each-Keeps _ event.conversation.members (λ m. when-Keeps _ _ (
          bind-Keeps _ (gets-Keeps _ _) (λ blocked. bind-Keeps _ (gets-Keeps _ _) (λ person.
            when-Keeps _ _ (seq-Keeps _ (notify-IsUntold event m.user there) (pure-Keeps _ _)))))))

  -- The handler of a new message, with the gateway as the socket's join leaves it.
  abbrev pub announced : Socket → ℕ → Server → MessageEvent → Action (Unit {0})
  announced s id srv event =
      let after = (join env s id srv).1 in
      on_message_created env (λ user chat. is_in_conversation user chat after) event

  -- Once a connected socket of an active member has joined the chat, a new message in that chat, of
  -- whatever type and sender and in whatever world it finds the server, stores no notification for its
  -- user and sends them neither a notification nor a badge.
  pub on_message_created-join :
      (s : Socket) (id : ℕ) (row : Conversation) (srv : Server) (event : MessageEvent)
      (kept : List Notification) (sent : List Emit)
      → find_socket s.id srv ≡ some s
      → member_row env s.user id srv.world ≡ some row
      → event.conversation.id ≡ id
      → Keeps (IsUntold s.user kept sent) (announced s id srv event)
  on_message_created-join s id row srv event kept sent found h at =
      on_message_created-IsUntold (join env s id srv).1 s.user kept sent event
        (rw at (join-opens s id row srv found h))
