-- ===== src/Notifications/Service.antt =====
-- The handlers of src/notifications/notifications.service.ts. `in_thread` tells whether a socket of
-- the user has the chat open, which the gateway answers. A DTO is given by its row.
use chatwave_backend.Base.{
  ℕ, ◌+◌, ◌-◌, ◌*◌, Bool, true, false, ◌&&◌, ◌||◌, not, Option, none, some, List, [], ◌∷◌, ◌++◌,
  ◌==◌, ltb, leb, if◌then◌else◌, filter, find, length, take, mem, is_some, is_none, or_else, min,
  max,
}
use chatwave_backend.Base.Text.{Text, text}
use chatwave_backend.Env.{Env, is_mongo_id}
use chatwave_backend.Schema.User.{User}
use chatwave_backend.Schema.Conversation.{Conversation, ConversationMember, ConversationType}
use chatwave_backend.Schema.Message.{MessageType}
use chatwave_backend.Schema.Notification.{Notification, NotificationType}
use chatwave_backend.World.State.{
  World, Emit, Action, pure, gets, modify, ◌>>=◌, ◌>>◌, for_each, when, on_some, branch,
}
use chatwave_backend.World.Effects.{emit, fresh_id}
use chatwave_backend.World.Ttl.{Entry, lookup, put}
use chatwave_backend.Users.{find_by_id, is_managed_user_hidden}
use chatwave_backend.Users.Presence.{get_live_presence}
use chatwave_backend.Blocks.Queries.{is_blocked}
use chatwave_backend.Auth.Devices.{or_text}
use chatwave_backend.Notifications.Digests.{bump_digest, wants_digest}

-- `NOTIFY_RATE_MAX`, `NOTIFY_RATE_WINDOW` and `OFFLINE_FOR_EMAIL_MS`
abbrev pub notify_rate_max : ℕ
notify_rate_max = 60

abbrev notify_rate_window : ℕ
notify_rate_window = 60000

abbrev offline_for_email : ℕ
offline_for_email = 1800000

-- The argument of `notify`.
pub record NotifyInput : Type 0 where
  pub user : ℕ
  pub type : NotificationType
  pub title : Text
  pub body : Text
  pub href : Text
  pub conversation : Option ℕ
  pub message : Option ℕ
  pub call : Option ℕ
  pub actor : Option ℕ
  pub skip_if_in_thread : Bool
  pub preview : Text

abbrev pub is_self : Option ℕ → ℕ → Bool
is_self none user = false
is_self (some actor) user = actor == user

abbrev pub opens : (ℕ → ℕ → Bool) → NotifyInput → Bool
opens in_thread input =
    input.skip_if_in_thread
    && elim input.conversation [ none ↦ false | some chat ↦ in_thread input.user chat ]

abbrev is_unreachable : Option User → Bool
is_unreachable none = true
is_unreachable (some u) = is_managed_user_hidden u

abbrev is_message_type : NotificationType → Bool
is_message_type NotificationType.message = true
is_message_type _ = false

-- INCR, with EXPIRE on the first count
abbrev pub bumped_rate : Option (Entry ℕ) → ℕ → ℕ → ℕ
bumped_rate none now user = 1
bumped_rate (some e) now user = if ltb now e.expires_at then e.value + 1 else 1

abbrev rate_expiry : Option (Entry ℕ) → ℕ → ℕ
rate_expiry none now = now + notify_rate_window
rate_expiry (some e) now = if ltb now e.expires_at then e.expires_at else now + notify_rate_window

unfoldable pub notify_limited : ℕ → Action Bool
notify_limited user = do
  count ← gets (λ w. bumped_rate (lookup user w.notify_rates) w.now user)
  modify (λ w. record w {
    notify_rates = put user count (rate_expiry (lookup user w.notify_rates) w.now) w.notify_rates;
  })
  pure (ltb notify_rate_max count)

abbrev pub is_unread_of : ℕ → Notification → Bool
is_unread_of user n = n.user == user && is_none n.read_at

unfoldable pub unread_count : ℕ → List Notification → ℕ
unread_count user rows = length (filter (is_unread_of user) rows)

-- The event that a new message sends.
pub record MessageEvent : Type 0 where
  pub sender : ℕ
  pub conversation : Conversation
  pub message : ℕ
  pub type : MessageType
  pub preview : Text
  pub actor_name : Text

-- The event that a call or a missed call sends.
pub record CallEvent : Type 0 where
  pub call : ℕ
  pub conversation : ℕ
  pub actor : ℕ
  pub actor_name : Text
  pub recipients : List ℕ
  pub href : Text
  pub label : Text

-- The event that new members of a group send.
pub record MemberAddedEvent : Type 0 where
  pub conversation : ℕ
  pub group_name : Text
  pub actor : ℕ
  pub actor_name : Text
  pub users : List ℕ

module _ (env : Env) (in_thread : ℕ → ℕ → Bool) where
  abbrev oid_or_none : Option ℕ → Option ℕ
  oid_or_none none = none
  oid_or_none (some id) = if is_mongo_id env id then some id else none

  unfoldable pub new_notification : ℕ → ℕ → NotifyInput → Notification
  new_notification now id input = record {
    id = id;
    user = input.user;
    type = input.type;
    title = input.title;
    body = input.body;
    conversation = oid_or_none input.conversation;
    message = oid_or_none input.message;
    call = oid_or_none input.call;
    actor = oid_or_none input.actor;
    href = input.href;
    read_at = none;
    email_sent_at = none;
    created_at = now;
  }

  -- what `notify` does once nothing speaks against it
  unfoldable pub deliver : NotifyInput → Option User → Action (Option Notification)
  deliver input recipient = do
    now ← gets (λ w. w.now)
    id ← fresh_id
    let row = new_notification now id input
    modify (λ w. record w { notifications = w.notifications ++ row ∷ [] })
    when (is_message_type input.type && wants_digest recipient)
        (modify (bump_digest input.user (or_text input.preview (or_text input.body input.title))))
    count ← gets (λ w. unread_count input.user w.notifications)
    emit (Emit.notification input.user id)
    emit (Emit.badge input.user count)
    pure (some row)

  unfoldable pub notify_reachable : NotifyInput → Action (Option Notification)
  notify_reachable input = branch (opens in_thread input) (pure none) do
    recipient ← find_by_id input.user
    branch (is_unreachable recipient) (pure none) (deliver input recipient)

  unfoldable pub notify : NotifyInput → Action (Option Notification)
  notify input =
      branch (is_self input.actor input.user || not (is_mongo_id env input.user)) (pure none)
        do limited ← notify_limited input.user; branch limited (pure none) (notify_reachable input)

  abbrev is_quiet_type : MessageType → Bool
  is_quiet_type MessageType.system = true
  is_quiet_type MessageType.call = true
  is_quiet_type _ = false

  abbrev is_addressed : MessageEvent → ConversationMember → Bool
  is_addressed event m = not (m.user == event.sender) && is_none m.left_at && not m.muted

  abbrev group_title : ConversationType → Text → Text → Text
  group_title ConversationType.group name actor = or_text name (text "Group")
  group_title ConversationType.direct name actor = actor

  -- `user?.settings?.messageNotifications === false`
  abbrev refuses_messages : Option User → Bool
  refuses_messages none = false
  refuses_messages (some u) = elim u.settings.message_notifications [
    | none ↦ false
    | some b ↦ not b
  ]

  abbrev pub message_input : MessageEvent → ℕ → NotifyInput
  message_input event user = record {
    user = user;
    type = NotificationType.message;
    title = group_title event.conversation.type event.conversation.name event.actor_name;
    body = event.preview;
    href = text "/chats/" ++ env.id_text event.conversation.id;
    conversation = some event.conversation.id;
    message = some event.message;
    call = none;
    actor = some event.sender;
    skip_if_in_thread = true;
    preview = event.preview;
  }

  -- the body of the loop of `onMessageCreated`
  unfoldable pub notify_member : MessageEvent → ConversationMember → Action (Unit {0})
  notify_member event m = when (is_addressed event m) do
    blocked ← gets (λ w. is_blocked env w.blocks m.user event.sender)
    person ← find_by_id m.user
    when (not blocked && not (refuses_messages person))
        (notify (message_input event m.user) >> pure tt)

  unfoldable pub on_message_created : MessageEvent → Action (Unit {0})
  on_message_created event =
      when (not (is_quiet_type event.type))
        (for_each event.conversation.members (notify_member event))

  abbrev call_input : CallEvent → NotificationType → Text → Text → ℕ → NotifyInput
  call_input event type title body user = record {
    user = user;
    type = type;
    title = title;
    body = body;
    href = event.href;
    conversation = some event.conversation;
    message = none;
    call = some event.call;
    actor = some event.actor;
    skip_if_in_thread = false;
    preview = [];
  }

  unfoldable pub on_call_incoming : CallEvent → Action (Unit {0})
  on_call_incoming event = for_each event.recipients λ user.
      notify (call_input event NotificationType.call event.actor_name event.label user) >> pure tt

  abbrev seen_long_ago : ℕ → Option ℕ → Bool
  seen_long_ago now none = true
  seen_long_ago now (some at) = leb (at + offline_for_email) now

  abbrev last_seen_of : Option User → Option ℕ
  last_seen_of none = none
  last_seen_of (some u) = u.last_seen_at

  -- `offlineLongEnough`
  unfoldable pub offline_long_enough : ℕ → Option ℕ → Action Bool
  offline_long_enough user last_seen = do
    sockets ← gets (λ w. elim (lookup user w.sockets) [ none ↦ 0 | some e ↦ e.value ])
    branch (ltb 0 sockets) (pure false) do
      live ← get_live_presence user
      now ← gets (λ w. w.now)
      pure (is_none live && seen_long_ago now last_seen)

  abbrev refuses_call_emails : Option User → Bool
  refuses_call_emails none = true
  refuses_call_emails (some u) = elim u.settings.missed_call_emails [
    | none ↦ false
    | some b ↦ not b
  ]

  unfoldable pub mark_emailed : ℕ → World → World
  mark_emailed id w = record w {
    notifications =
        chatwave_backend.Base.update_first (λ n. n.id == id)
          (λ n. record n { email_sent_at = some w.now }) w.notifications;
  }

  abbrev mail_missed : Option User → Text → Action (Unit {0})
  mail_missed none label = pure tt
  mail_missed (some u) label = emit (Emit.mail_missed_call u.email u.name label)

  -- `maybeEmailMissedCall`
  unfoldable pub email_missed_call : ℕ → Text → ℕ → Action (Unit {0})
  email_missed_call user label id = do
    person ← find_by_id user
    when (not (refuses_call_emails person)) do
      away ← offline_long_enough user (last_seen_of person)
      when away (mail_missed person label >> modify (mark_emailed id))

  unfoldable pub miss_call : CallEvent → ℕ → Action (Unit {0})
  miss_call event user = do
    row ← notify (call_input event NotificationType.missed_call event.label event.actor_name user)
    on_some row tt λ n. email_missed_call user event.label n.id

  unfoldable pub on_call_missed : CallEvent → Action (Unit {0})
  on_call_missed event = for_each event.recipients (miss_call event)

  abbrev added_input : MemberAddedEvent → ℕ → NotifyInput
  added_input event user = record {
    user = user;
    type = NotificationType.group;
    title = event.actor_name ++ text " added you to " ++ event.group_name;
    body = [];
    href = text "/chats/" ++ env.id_text event.conversation;
    conversation = some event.conversation;
    message = none;
    call = none;
    actor = some event.actor;
    skip_if_in_thread = false;
    preview = [];
  }

  unfoldable pub on_group_member_added : MemberAddedEvent → Action (Unit {0})
  on_group_member_added event =
      for_each event.users λ user. notify (added_input event user) >> pure tt
