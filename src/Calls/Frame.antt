-- ===== src/Calls/Frame.antt =====
-- What the handlers of calls do beside the rows of calls: a predicate that reads only the calls, the
-- counters of sockets and, from below, the next id, is kept by all of it.
use chatwave_backend.Base.{
  ℕ, ◌≤◌, ◌≡◌, refl, Bool, Option, none, some, List, [], ◌∷◌, arith, not, is_some,
}
use chatwave_backend.Base.Text.{Text}
use chatwave_backend.Env.{Env, is_mongo_id}
use chatwave_backend.Schema.User.{AuthViewer}
use chatwave_backend.Schema.Conversation.{Conversation, PreviewIcon}
use chatwave_backend.Schema.Message.{Message, CallMeta}
use chatwave_backend.Schema.Call.{Call}
use chatwave_backend.World.State.{World, Emit, modify, pure}
use chatwave_backend.World.Effects.{
  emit, fresh_id, load_conversation, save_conversation, save_message, create_message, load_call,
  set_call_ring, clear_call_ring, set_call_busy, get_call_busy, clear_call_busy,
}
use chatwave_backend.World.Keeps.{
  Keeps, pure-Keeps, gets-Keeps, modify-Keeps, bind-Keeps, seq-Keeps, when-Keeps, throw_if-Keeps,
  or_throw-Keeps, for_each-Keeps, on_some-Keeps, branch-Keeps,
}
use chatwave_backend.Users.{find_by_ids}
use chatwave_backend.Blocks.Queries.{assert_not_blocked}
use chatwave_backend.Conversations.Rows.{PreviewInput}
use chatwave_backend.Conversations.Service.{
  get_by_id, assert_member, bump_from_message, bump_preview,
}
use chatwave_backend.Messages.Service.{
  announce, send_call_log, touch, find_call_log, update_call_log,
}
use chatwave_backend.Calls.Rows.{Conclusion}
use chatwave_backend.Calls.Service.{
  settle, notify_ended, announce_missed, announce_declined, busy_row, busy_by_key, clear_stale_busy,
  start_guards, announce_call,
}

pub record Framed (P : World → Type 0) : Type 0 where
  pub apply :
      (v w : World) → w.calls ≡ v.calls → v.next_id ≤ w.next_id → w.sockets ≡ v.sockets → P v → P w

module _ (P : World → Type 0) (fr : Framed P) where
  modify-framed :
      (f : World → World)
      → ((w : World)
          → ((f w).calls ≡ w.calls) × (w.next_id ≤ (f w).next_id) × ((f w).sockets ≡ w.sockets))
      → Keeps P (modify f)
  modify-framed f h = modify-Keeps P f (λ w p. fr.apply w (f w) (h w).0 (h w).1 (h w).2 p)

  pub emit-Keeps : (e : Emit) → Keeps P (emit e)
  unfolding emit
  emit-Keeps e = modify-framed _ (λ w. (refl, omega arith, refl))

  pub fresh_id-Keeps : Keeps P fresh_id
  unfolding fresh_id
  fresh_id-Keeps = record { apply = λ w p. fr.apply w _ refl (omega arith) refl p }

  pub save_conversation-Keeps : (row : Conversation) → Keeps P (save_conversation row)
  unfolding save_conversation
  save_conversation-Keeps row = modify-framed _ (λ w. (refl, omega arith, refl))

  pub save_message-Keeps : (row : Message) → Keeps P (save_message row)
  unfolding save_message
  save_message-Keeps row = modify-framed _ (λ w. (refl, omega arith, refl))

  pub create_message-Keeps : (row : Message) → Keeps P (create_message row)
  unfolding create_message
  create_message-Keeps row = modify-framed _ (λ w. (refl, omega arith, refl))

  pub set_call_ring-Keeps : (call ttl : ℕ) → Keeps P (set_call_ring call ttl)
  unfolding set_call_ring
  set_call_ring-Keeps call ttl = modify-framed _ (λ w. (refl, omega arith, refl))

  pub clear_call_ring-Keeps : (call : ℕ) → Keeps P (clear_call_ring call)
  unfolding clear_call_ring
  clear_call_ring-Keeps call = modify-framed _ (λ w. (refl, omega arith, refl))

  pub set_call_busy-Keeps : (user call ttl : ℕ) → Keeps P (set_call_busy user call ttl)
  unfolding set_call_busy
  set_call_busy-Keeps user call ttl = modify-framed _ (λ w. (refl, omega arith, refl))

  pub clear_call_busy-Keeps : (user : ℕ) → Keeps P (clear_call_busy user)
  unfolding clear_call_busy
  clear_call_busy-Keeps user = modify-framed _ (λ w. (refl, omega arith, refl))

  get_call_busy-Keeps : (user : ℕ) → Keeps P (get_call_busy user)
  unfolding get_call_busy
  get_call_busy-Keeps user = gets-Keeps P _

  pub load_conversation-Keeps : (id : ℕ) → Keeps P (load_conversation id)
  unfolding load_conversation
  load_conversation-Keeps id = gets-Keeps P _

  pub load_call-Keeps : (id : ℕ) → Keeps P (load_call id)
  unfolding load_call
  load_call-Keeps id = gets-Keeps P _

  module _ (env : Env) where
    pub get_by_id-Keeps : (id : ℕ) → Keeps P (get_by_id env id)
    unfolding get_by_id
    get_by_id-Keeps id =
        elim (is_mongo_id env id)
          as (λ b.
            Keeps P (chatwave_backend.Base.if◌then◌else◌ b (load_conversation id) (pure none))) [
              | chatwave_backend.Base.true ↦ load_conversation-Keeps id
              | chatwave_backend.Base.false ↦ pure-Keeps P none
            ]

    pub assert_member-Keeps : (user id : ℕ) → Keeps P (assert_member env user id)
    unfolding assert_member
    assert_member-Keeps user id =
        seq-Keeps P (throw_if-Keeps P _ _)
          (bind-Keeps P (load_conversation-Keeps id) (λ row. or_throw-Keeps P _ _))

    pub bump_from_message-Keeps :
        (id : ℕ) (sender : Option ℕ) (preview : Text) (icon : Option PreviewIcon) (message : ℕ)
        → Keeps P (bump_from_message env id sender preview icon message)
    unfolding bump_from_message
    bump_from_message-Keeps id sender preview icon message =
        bind-Keeps P (load_conversation-Keeps id) (λ found. on_some-Keeps P found none (λ row.
          bind-Keeps P (gets-Keeps P _)
            (λ now. seq-Keeps P (save_conversation-Keeps _) (pure-Keeps P _))))

    bump_preview-Keeps : (id : ℕ) (input : PreviewInput) → Keeps P (bump_preview env id input)
    unfolding bump_preview
    bump_preview-Keeps id input = bind-Keeps P (load_conversation-Keeps id) (λ found.
        on_some-Keeps P found none
          (λ row. seq-Keeps P (save_conversation-Keeps _) (pure-Keeps P _)))

    touch-Keeps : (row : Message) → Keeps P (touch env row)
    unfolding touch
    touch-Keeps row = bind-Keeps P (get_by_id-Keeps _) (λ found.
        bind-Keeps P (or_throw-Keeps P found _)
          (λ c. seq-Keeps P (emit-Keeps _) (pure-Keeps P row)))

    pub update_call_log-Keeps :
        (input : CallMeta) (preview : Text) → Keeps P (update_call_log env input preview)
    unfolding update_call_log find_call_log
    update_call_log-Keeps input preview = branch-Keeps P _ (pure-Keeps P none) (
        bind-Keeps P (gets-Keeps P _) (λ found. on_some-Keeps P found none (λ row.
          bind-Keeps P (gets-Keeps P _) (λ now. seq-Keeps P (save_message-Keeps _) (
            seq-Keeps P (bump_preview-Keeps _ _)
              (bind-Keeps P (touch-Keeps _) (λ m. pure-Keeps P _)))))))

    send_call_log-Keeps :
        (id sender : ℕ) (input : CallMeta) → Keeps P (send_call_log env id sender input)
    unfolding send_call_log announce
    send_call_log-Keeps id sender input = bind-Keeps P (get_by_id-Keeps id) (λ found.
        on_some-Keeps P found none (λ conversation. bind-Keeps P (gets-Keeps P _) (λ now.
          bind-Keeps P fresh_id-Keeps (λ message. seq-Keeps P (create_message-Keeps _) (
            seq-Keeps P (bind-Keeps P (bump_from_message-Keeps _ _ _ _ _) (λ b. emit-Keeps _))
              (pure-Keeps P _))))))

    pub busy_row-Keeps : (call : ℕ) → Keeps P (busy_row env call)
    unfolding busy_row
    busy_row-Keeps call =
        branch-Keeps P _ (pure-Keeps P _)
          (bind-Keeps P (load_call-Keeps call) (λ row. pure-Keeps P _))

    pub busy_by_key-Keeps : (users : List ℕ) → Keeps P (busy_by_key env users)
    unfolding busy_by_key
    busy_by_key-Keeps [] = pure-Keeps P _
    busy_by_key-Keeps (user ∷ users) = bind-Keeps P (get_call_busy-Keeps user) (λ key.
        bind-Keeps P (on_some-Keeps P key _ busy_row-Keeps) (λ found.
          branch-Keeps P found (pure-Keeps P _)
            (seq-Keeps P (when-Keeps P _ (clear_call_busy-Keeps user)) (busy_by_key-Keeps users))))

    pub clear_stale_busy-Keeps : (users : List ℕ) → Keeps P (clear_stale_busy env users)
    unfolding clear_stale_busy
    clear_stale_busy-Keeps users = for_each-Keeps P users (λ user.
        bind-Keeps P (get_call_busy-Keeps user) (λ key.
          bind-Keeps P (on_some-Keeps P key _ busy_row-Keeps)
            (λ found. when-Keeps P _ (clear_call_busy-Keeps user))))

    pub assert_not_blocked-Keeps :
        (a b : ℕ) (error : chatwave_backend.Base.String)
        → Keeps P (assert_not_blocked env a b error)
    unfolding assert_not_blocked
    assert_not_blocked-Keeps a b error = bind-Keeps P (gets-Keeps P _) (λ c. throw_if-Keeps P _ _)

    pub start_guards-Keeps :
        (viewer : AuthViewer) (chat : ℕ) → Keeps P (start_guards env viewer chat)
    unfolding start_guards find_by_ids
    start_guards-Keeps viewer chat =
        bind-Keeps P (assert_member-Keeps viewer.id chat) (λ conversation.
          seq-Keeps P (throw_if-Keeps P _ _) (
            seq-Keeps P (on_some-Keeps P _ tt (λ callee. assert_not_blocked-Keeps _ _ _)) (
              bind-Keeps P (gets-Keeps P _)
                (λ people. seq-Keeps P (throw_if-Keeps P _ _) (pure-Keeps P _)))))

    pub announce_call-Keeps :
        (viewer : AuthViewer) (conversation : Conversation) (callees : List ℕ) (row : Call)
        → Keeps P (announce_call env viewer conversation callees row)
    unfolding announce_call
    announce_call-Keeps viewer conversation callees row = seq-Keeps P (set_call_ring-Keeps _ _) (
        seq-Keeps P (for_each-Keeps P _ (λ user. set_call_busy-Keeps _ _ _)) (
          seq-Keeps P (send_call_log-Keeps _ _ _) (
            seq-Keeps P (for_each-Keeps P _ (λ user. emit-Keeps _))
              (seq-Keeps P (emit-Keeps _) (emit-Keeps _)))))

  pub notify_ended-Keeps : (row : Call) → Keeps P (notify_ended row)
  unfolding notify_ended
  notify_ended-Keeps row = emit-Keeps _

  pub announce_missed-Keeps : (row : Call) → Keeps P (announce_missed row)
  unfolding announce_missed
  announce_missed-Keeps row = seq-Keeps P (emit-Keeps _) (emit-Keeps _)

  pub announce_declined-Keeps : (row : Call) (user : ℕ) → Keeps P (announce_declined row user)
  unfolding announce_declined
  announce_declined-Keeps row user = emit-Keeps _

  pub settle-Keeps : (env : Env) (input : Conclusion) (row : Call) → Keeps P (settle env input row)
  unfolding settle
  settle-Keeps env input row = seq-Keeps P (clear_call_ring-Keeps _) (
      seq-Keeps P (for_each-Keeps P _ clear_call_busy-Keeps) (
        seq-Keeps P (update_call_log-Keeps env _ _) (
          seq-Keeps P (notify_ended-Keeps row) (
            seq-Keeps P (when-Keeps P _ (announce_missed-Keeps row)) (
              seq-Keeps P (when-Keeps P _ (on_some-Keeps P _ tt (announce_declined-Keeps row)))
                (pure-Keeps P row))))))
