-- ===== src/Sockets/Kept.antt =====
-- The counters `socks:<user>` are the gateway's: the services that a socket reaches leave them alone.
use chatwave_backend.Base.{ℕ, ◌≡◌, ◌∙◌, Option, none, some, List, [], ◌∷◌}
use chatwave_backend.Base.Text.{Text}
use chatwave_backend.Env.{Env}
use chatwave_backend.Schema.User.{User, AuthViewer}
use chatwave_backend.Schema.Conversation.{Conversation, PreviewIcon}
use chatwave_backend.Schema.Message.{Message, ReceiptStatus}
use chatwave_backend.Schema.Call.{Call}
use chatwave_backend.World.State.{World}
use chatwave_backend.World.Effects.{save_call, load_message, too_many}
use chatwave_backend.World.Ttl.{Entry}
use chatwave_backend.World.Keeps.{
  Keeps, pure-Keeps, gets-Keeps, modify-Keeps, bind-Keeps, seq-Keeps, when-Keeps, throw_if-Keeps,
  or_throw-Keeps, for_each-Keeps, on_some-Keeps, branch-Keeps,
}
use chatwave_backend.Users.{find_active_by_id}
use chatwave_backend.Users.Store.{assert_unique, save_user, update_user}
use chatwave_backend.Users.Accounts.{mark_online, go_offline}
use chatwave_backend.Users.Closing.{get_auth_viewer, read_viewer, cache_viewer}
use chatwave_backend.Auth.Guard.{Credentials, resolve_cookie}
use chatwave_backend.Conversations.Service.{reset_unread}
use chatwave_backend.Messages.Service.{
  announce, mark_one, mark_all, mark_matching, mark, assert_can_write, assert_reply, persist,
  send_text,
}
use chatwave_backend.Messages.Rows.{MessageInput}
use chatwave_backend.Calls.Rows.{Conclusion}
use chatwave_backend.Calls.Service.{
  conclude, conclude_each, hangup_all_for_user, require_participant, mark_joined,
}
use chatwave_backend.Calls.Frame.{
  Framed, emit-Keeps, fresh_id-Keeps, save_conversation-Keeps, save_message-Keeps,
  create_message-Keeps, load_conversation-Keeps, load_call-Keeps, assert_member-Keeps,
  bump_from_message-Keeps, assert_not_blocked-Keeps, settle-Keeps,
}
use chatwave_backend.Sockets.Session.{authenticate, authenticate_token}

-- The counters are `ks`.
abbrev pub Counters : List (Entry ℕ) → World → Type 0
Counters ks w = w.sockets ≡ ks

module _ (ks : List (Entry ℕ)) where
  pub fr : Framed (Counters ks)
  fr = record { apply = λ v w e le same p. same ∙ p }

  save_call-Keeps : (row : Call) → Keeps (Counters ks) (save_call row)
  unfolding save_call
  save_call-Keeps row = modify-Keeps _ _ (λ w p. p)

  save_user-Keeps : (f : User → User) (row : User) → Keeps (Counters ks) (save_user f row)
  unfolding save_user assert_unique update_user
  save_user-Keeps f row =
      seq-Keeps _
        (bind-Keeps _ (gets-Keeps _ _) (λ users.
          seq-Keeps _ (throw_if-Keeps _ _ _)
            (seq-Keeps _ (throw_if-Keeps _ _ _) (throw_if-Keeps _ _ _))))
        (seq-Keeps _ (modify-Keeps _ _ (λ w p. p)) (pure-Keeps _ _))

  module _ (env : Env) where
    pub mark_online-Keeps : (row : User) → Keeps (Counters ks) (mark_online env row)
    unfolding mark_online
    mark_online-Keeps row =
        bind-Keeps _ (gets-Keeps _ _)
          (λ now. seq-Keeps _ (modify-Keeps _ _ (λ w p. p)) (save_user-Keeps _ row))

    pub go_offline-Keeps : (user : ℕ) → Keeps (Counters ks) (go_offline env user)
    unfolding go_offline update_user
    go_offline-Keeps user = seq-Keeps _ (modify-Keeps _ _ (λ w p. p)) (modify-Keeps _ _ (λ w p. p))

    get_auth_viewer-Keeps : (user : ℕ) → Keeps (Counters ks) (get_auth_viewer env user)
    unfolding get_auth_viewer read_viewer cache_viewer
    get_auth_viewer-Keeps user = branch-Keeps _ _ (pure-Keeps _ _) (
        bind-Keeps _ (gets-Keeps _ _) (λ cached. branch-Keeps _ _ (pure-Keeps _ _) (
          bind-Keeps _ (gets-Keeps _ _) (λ found.
            on_some-Keeps _ found none
              (λ viewer. seq-Keeps _ (modify-Keeps _ _ (λ w p. p)) (pure-Keeps _ _))))))

    resolve_cookie-Keeps : (cookie : Option ℕ) → Keeps (Counters ks) (resolve_cookie env cookie)
    unfolding resolve_cookie
    resolve_cookie-Keeps cookie = bind-Keeps _ (or_throw-Keeps _ _ _) (λ id.
        bind-Keeps _ (gets-Keeps _ _)
          (λ found. bind-Keeps _ (or_throw-Keeps _ _ _) (λ row. pure-Keeps _ _)))

    authenticate_token-Keeps :
        (token : Option (ℕ × ℕ)) (cookie : Option ℕ)
        → Keeps (Counters ks) (authenticate_token env token cookie)
    unfolding authenticate_token
    authenticate_token-Keeps none cookie =
        bind-Keeps _ (resolve_cookie-Keeps cookie) (λ found. pure-Keeps _ _)
    authenticate_token-Keeps (some (user, session)) cookie = bind-Keeps _ (gets-Keeps _ _) (λ found.
        branch-Keeps _ _ (pure-Keeps _ _)
          (bind-Keeps _ (resolve_cookie-Keeps cookie) (λ r. pure-Keeps _ _)))

    pub authenticate-Keeps :
        (credentials : Credentials) → Keeps (Counters ks) (authenticate env credentials)
    unfolding authenticate
    authenticate-Keeps credentials =
        bind-Keeps _ (authenticate_token-Keeps _ _)
          (λ user. bind-Keeps _ (get_auth_viewer-Keeps user) (λ found. or_throw-Keeps _ _ _))

    conclude-Keeps :
        (input : Conclusion) (row : Call) → Keeps (Counters ks) (conclude env input row)
    unfolding conclude
    conclude-Keeps input row = branch-Keeps _ _ (pure-Keeps _ _) (
        bind-Keeps _ (gets-Keeps _ _)
          (λ now. seq-Keeps _ (save_call-Keeps _) (settle-Keeps _ fr env input _)))

    pub hangup_all-Keeps : (user : ℕ) → Keeps (Counters ks) (hangup_all_for_user env user)
    unfolding hangup_all_for_user conclude_each
    hangup_all-Keeps user = branch-Keeps _ _ (pure-Keeps _ _) (
        bind-Keeps _ (gets-Keeps _ _) (λ rows.
          for_each-Keeps _ rows (λ row. seq-Keeps _ (conclude-Keeps _ row) (pure-Keeps _ _))))

    pub require_participant-Keeps :
        (id user : ℕ) → Keeps (Counters ks) (require_participant env id user)
    unfolding require_participant
    require_participant-Keeps id user = seq-Keeps _ (throw_if-Keeps _ _ _) (
        bind-Keeps _ (load_call-Keeps _ fr id) (λ found.
          bind-Keeps _ (or_throw-Keeps _ _ _)
            (λ row. seq-Keeps _ (throw_if-Keeps _ _ _) (pure-Keeps _ _))))

    pub mark_joined-Keeps : (id user : ℕ) → Keeps (Counters ks) (mark_joined env id user)
    unfolding mark_joined
    mark_joined-Keeps id user = bind-Keeps _ (require_participant-Keeps id user) (λ row.
        bind-Keeps _ (gets-Keeps _ _) (λ now.
          branch-Keeps _ _ (pure-Keeps _ _) (seq-Keeps _ (save_call-Keeps _) (pure-Keeps _ _))))

    reset_unread-Keeps : (id user : ℕ) → Keeps (Counters ks) (reset_unread env id user)
    unfolding reset_unread
    reset_unread-Keeps id user = bind-Keeps _ (load_conversation-Keeps _ fr id) (λ found.
        on_some-Keeps _ _ none (λ row.
          bind-Keeps _ (gets-Keeps _ _)
            (λ now. seq-Keeps _ (save_conversation-Keeps _ fr _) (pure-Keeps _ _))))

    mark_one-Keeps :
        (viewer id : ℕ) (status : ReceiptStatus) (updated : ℕ) (row : Message)
        → Keeps (Counters ks) (mark_one env viewer id status updated row)
    unfolding mark_one
    mark_one-Keeps viewer id status updated row = bind-Keeps _ (gets-Keeps _ _) (λ now.
        on_some-Keeps _ _ _ (λ receipts.
          seq-Keeps _ (save_message-Keeps _ fr _)
            (seq-Keeps _ (emit-Keeps _ fr _) (pure-Keeps _ _))))

    mark_all-Keeps :
        (viewer id : ℕ) (status : ReceiptStatus) (updated : ℕ) (rows : List Message)
        → Keeps (Counters ks) (mark_all env viewer id status updated rows)
    unfolding mark_all
    mark_all-Keeps viewer id status updated [] = pure-Keeps _ _
    mark_all-Keeps viewer id status updated (row ∷ rows) =
        bind-Keeps _ (mark_one-Keeps viewer id status updated row)
          (λ count. mark_all-Keeps viewer id status count rows)

    pub mark-Keeps :
        (viewer : AuthViewer) (id : ℕ) (status : ReceiptStatus) (message : Option ℕ)
        → Keeps (Counters ks) (mark env viewer id status message)
    unfolding mark mark_matching find_active_by_id
    mark-Keeps viewer id status message = seq-Keeps _ (assert_member-Keeps _ fr env _ _) (
        bind-Keeps _ (gets-Keeps _ _) (λ person.
          branch-Keeps _ _ (seq-Keeps _ (reset_unread-Keeps _ _) (pure-Keeps _ _)) (
            seq-Keeps _ (throw_if-Keeps _ _ _) (
              bind-Keeps _ (gets-Keeps _ _) (λ rows.
                bind-Keeps _ (mark_all-Keeps _ _ _ _ rows) (λ updated.
                  seq-Keeps _
                    (when-Keeps _ _ (seq-Keeps _ (reset_unread-Keeps _ _) (pure-Keeps _ _)))
                    (pure-Keeps _ _)))))))

    too_many-Keeps :
        (user chat most window : ℕ) → Keeps (Counters ks) (too_many user chat most window)
    unfolding too_many
    too_many-Keeps user chat most window = record { apply = λ w p. p }

    announce-Keeps :
        (conversation : Conversation) (id : ℕ) (sender : Option ℕ) (preview : Text)
        (icon : Option PreviewIcon) (message : ℕ)
        → Keeps (Counters ks) (announce env conversation id sender preview icon message)
    unfolding announce
    announce-Keeps conversation id sender preview icon message =
        bind-Keeps _ (bump_from_message-Keeps _ fr env _ _ _ _ _) (λ b. emit-Keeps _ fr _)

    guards-Keeps :
        (viewer : AuthViewer) (conversation : Conversation)
        → Keeps (Counters ks) (assert_can_write env viewer conversation)
    unfolding assert_can_write
    guards-Keeps viewer conversation =
        when-Keeps _ _ (on_some-Keeps _ _ tt (λ other. assert_not_blocked-Keeps _ fr env _ _ _))

    assert_reply-Keeps :
        (conversation : ℕ) (reply : Option ℕ)
        → Keeps (Counters ks) (assert_reply env conversation reply)
    unfolding assert_reply load_message
    assert_reply-Keeps conversation reply = on_some-Keeps _ reply tt (λ id.
        seq-Keeps _ (throw_if-Keeps _ _ _)
          (bind-Keeps _ (gets-Keeps _ _) (λ found. throw_if-Keeps _ _ _)))

    persist-Keeps :
        (viewer : AuthViewer) (id : ℕ) (input : MessageInput)
        → Keeps (Counters ks) (persist env viewer id input)
    unfolding persist find_active_by_id
    persist-Keeps viewer id input = bind-Keeps _ (gets-Keeps _ _) (λ found.
        bind-Keeps _ (or_throw-Keeps _ _ _) (λ user.
          bind-Keeps _ (assert_member-Keeps _ fr env _ _) (λ conversation.
            seq-Keeps _ (guards-Keeps viewer conversation) (
              bind-Keeps _ (too_many-Keeps _ _ _ _) (λ limited. seq-Keeps _ (throw_if-Keeps _ _ _) (
                seq-Keeps _ (assert_reply-Keeps _ _) (
                  bind-Keeps _ (gets-Keeps _ _) (λ now.
                    bind-Keeps _ (fresh_id-Keeps _ fr) (λ message.
                      seq-Keeps _ (create_message-Keeps _ fr _) (
                        seq-Keeps _ (announce-Keeps _ _ _ _ _ _)
                          (seq-Keeps _ (emit-Keeps _ fr _) (pure-Keeps _ _))))))))))))

    pub send_text-Keeps :
        (viewer : AuthViewer) (id : ℕ) (body : Text) (reply : Option ℕ)
        → Keeps (Counters ks) (send_text env viewer id body reply)
    unfolding send_text
    send_text-Keeps viewer id body reply =
        seq-Keeps _ (throw_if-Keeps _ _ _)
          (seq-Keeps _ (throw_if-Keeps _ _ _) (persist-Keeps viewer id _))
