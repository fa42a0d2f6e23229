-- ===== src/Tests/Sockets.antt =====
-- The sockets, the contacts, the profiles and the lists of chats at concrete inputs.
use mathlib.Core.Quot
use chatwave_backend.Env.{Env}
use chatwave_backend.Base.{
  ◌+◌, map, ◌≢◌, ℕ, ◌+◌, ◌≡◌, ◌≤◌, refl, arith, Bool, true, false, ◌&&◌, ◌||◌, not, Option, none,
  some, List, [], ◌∷◌, All, filter, length, ltb, if◌then◌else◌,
}
use chatwave_backend.Base.Text.{text}
use chatwave_backend.Schema.User.{Presence, User}
use chatwave_backend.Schema.Session.{SessionRecord, SessionPlatform}
use chatwave_backend.Schema.Message.{ReceiptStatus}
use chatwave_backend.Schema.Conversation.{Conversation, ConversationMember, MemberRole}
use chatwave_backend.World.State.{
  ok, ◌>>=◌, ◌>>◌, and_then, gets, pure, or_throw, branch, on_some, modify,
}
use chatwave_backend.World.Keeps.{Keeps}
use chatwave_backend.Auth.Service.{session_of}
use chatwave_backend.Auth.Sessions.{get_session}
use chatwave_backend.Users.{is_managed_user_hidden}
use chatwave_backend.Users.Closing.{get_auth_viewer, read_viewer, cache_viewer, stored_viewer}
use chatwave_backend.World.Ttl.{lookup}
use chatwave_backend.Users.Profiles.{public_users, is_live}
use chatwave_backend.Users.Private.{IsBlank, with_seen, public_users-IsBlank}
use chatwave_backend.Auth.Guard.{Credentials, resolve, resolve_token}
use chatwave_backend.Conversations.Rows.{member_doc, is_group, active_member}
use chatwave_backend.Conversations.Listing.{
  all, unread, groups, archived, ListItem, passes_list, is_kept_out, list,
}
use chatwave_backend.Conversations.Filters.{IsOrdered, passes_list-partition, list-IsOrdered}
use chatwave_backend.Conversations.Pairs.{HasKeys, UserPair, direct_key, direct_key-injective}
use chatwave_backend.Contacts.Service.{add}
use chatwave_backend.Users.Profiles.{by_id}
use chatwave_backend.Contacts.Book.{IsBook, add-IsBook}
use chatwave_backend.Sockets.State.{
  Server, Socket, Pending, failed, user_room, find_socket, socket_count,
}
use chatwave_backend.Sockets.Session.{authenticate, fire_offline, check_offline}
use chatwave_backend.Sockets.Chat.{join, set_typing_state, receipt}
use chatwave_backend.Sockets.Run.{
  handle, Request, arrive, lose, says, offline_timer, offline_check, hangup_timer, wait, join_chat,
  report_typing, run,
}
use chatwave_backend.Sockets.Counts.{connected}
use chatwave_backend.Sockets.InThread.{IsUntold, announced, on_message_created-join}
use chatwave_backend.World.Keeps.{Keeps}
use chatwave_backend.Notifications.Service.{MessageEvent}
use chatwave_backend.Schema.Message.{MessageType}
use chatwave_backend.Sockets.Sound.{IsSound}
use chatwave_backend.Sockets.Counted.{run-IsSound}
use chatwave_backend.Sockets.Reach.{
  HearsOwn, personal, run-personal, check_offline-live, authenticate-guard, refused-outsider,
}
use chatwave_backend.Tests.Calls.{env, user, viewer, chat, lobby, no_settings}

-- User 1 has a session.
abbrev session : SessionRecord
session = record {
  user = 1;
  created_at = 0;
  last_active_at = 0;
  user_agent = [];
  ip = [];
  platform = SessionPlatform.web;
  device = [];
  browser = [];
  city = [];
  country = [];
}

abbrev server : Server
server = record {
  world = record lobby {
    sessions = record {
      keys = record { key = 7; value = session; expires_at = 90000 } ∷ [];
      sets = [];
    };
  };
  connections = [];
  pending = [];
  checks = [];
  hangups = [];
  typing = [];
  packets = [];
}

server-IsSound : IsSound server
unfolding socket_count connected
server-IsSound = record { counted = λ u. refl; seated = tt; graced = tt; unique = tt }

abbrev signed_in : Credentials
signed_in = record { token = some 7; cookie = none }

-- User 1 connects, opens the chat, types, and vanishes; then the timers fire.
abbrev evening : List Request
evening =
    arrive 100 signed_in
    ∷ says 100 (join_chat 10)
    ∷ says 100 (report_typing 10 true)
    ∷ lose 100
    ∷ wait 3000
    ∷ offline_timer
    ∷ offline_check
    ∷ hangup_timer
    ∷ arrive 101 signed_in
    ∷ []

run-IsSound_example : IsSound (run env evening server)
run-IsSound_example = run-IsSound env evening server server-IsSound

run-personal_example :
    All
      (HearsOwn 1 (personal (run env evening server).world 1 40 10 2))
      (run env evening server).connections
run-personal_example = run-personal env evening server 1 40 10 2 server-IsSound

abbrev overdue : Pending
overdue = record { user = 2; due = 9000; is_listed = true }

abbrev late_server : Server
late_server = record server { pending = overdue ∷ [] }

late_server-IsSound : IsSound late_server
unfolding socket_count connected
late_server-IsSound = record {
  counted = λ u. refl;
  seated = tt;
  graced = ((refl, refl), tt);
  unique = (tt, tt);
}

-- The timer of user 2 fires, and nobody is back when the count arrives.
check_offline-live_example :
    lookup 2 (check_offline env (run env (offline_timer ∷ []) late_server)).world.presences.live
    ≡ none
unfolding run handle fire_offline connected
check_offline-live_example =
    check_offline-live env (offline_timer ∷ []) late_server 2 [] 2 late_server-IsSound refl

authenticate-guard_example :
    authenticate env signed_in server.world
    ≡ (ok (viewer 1), (chatwave_backend.Auth.Guard.authenticate env signed_in server.world).1)
unfolding chatwave_backend.Auth.Guard.authenticate resolve resolve_token session_of get_session
    get_auth_viewer read_viewer cache_viewer stored_viewer is_managed_user_hidden ◌>>=◌ ◌>>◌
    and_then gets pure or_throw branch on_some modify
authenticate-guard_example =
    authenticate-guard env signed_in server.world
      (chatwave_backend.Auth.Guard.authenticate env signed_in server.world).1 7 (viewer 1) refl

abbrev stranger : Socket
stranger = record { id = 102; user = 5; is_owner = false; rooms = user_room 5 ∷ [] }

refused-outsider_example :
    (join env stranger 10 server ≡ (failed "You cannot access this chat", server))
    × (set_typing_state env stranger 10 true server
        ≡ (failed "You cannot access this chat", server))
    × (receipt env stranger 10 none ReceiptStatus.seen server
        ≡ (failed "You cannot access this chat", server))
unfolding active_member member_doc
refused-outsider_example = refused-outsider env stranger 10 true none ReceiptStatus.seen server refl

abbrev month_day : ℕ → chatwave_backend.Base.Text.Text
month_day at = text "Nov 25"

add-IsBook_example : Keeps IsBook (add env month_day (viewer 1) (by_id 2) none)
add-IsBook_example = add-IsBook env month_day (viewer 1) (by_id 2) none

abbrev shy : User
shy = record (user 2) { settings = record no_settings { show_last_seen = some false } }

public_users-IsBlank_example :
    (public_users (viewer 1) (shy ∷ []) lobby
      ≡ public_users (viewer 1) (map (with_seen (some 5) Presence.online) (shy ∷ [])) server.world)
    × All IsBlank (public_users (viewer 1) (shy ∷ []) lobby)
    × (filter (λ p. is_live p.presence) (public_users (viewer 1) (shy ∷ []) lobby) ≡ [])
public_users-IsBlank_example =
    public_users-IsBlank (viewer 1) (shy ∷ []) (some 5) Presence.online lobby server.world
      (((λ e. absurd (omega arith)), refl), tt)

abbrev as_found : List Conversation → List Conversation
as_found rows = rows

list-IsOrdered_example :
    (items : List ListItem) × ((list env as_found (viewer 1) all none 0 lobby).0 ≡ ok items)
    × IsOrdered items
    × (length items ≤ 100)
list-IsOrdered_example = list-IsOrdered env as_found (viewer 1) all none 0 lobby

abbrev mine : ConversationMember
mine = member_doc 1 MemberRole.member 0

passes_list-partition_example :
    ((passes_list all 1 (2 ∷ []) chat mine && passes_list archived 1 (2 ∷ []) chat mine) ≡ false)
    × ((passes_list all 1 (2 ∷ []) chat mine || passes_list archived 1 (2 ∷ []) chat mine)
        ≡ (mine.archived || not (is_kept_out 1 (2 ∷ []) chat)))
    × (passes_list unread 1 (2 ∷ []) chat mine
        ≡ (ltb 0 mine.unread_count && passes_list all 1 (2 ∷ []) chat mine))
    × (passes_list groups 1 (2 ∷ []) chat mine
        ≡ (is_group chat.type && passes_list all 1 (2 ∷ []) chat mine))
passes_list-partition_example = passes_list-partition 1 (2 ∷ []) chat mine

abbrev one_way : UserPair
one_way = Quot.mk (4, 7)

abbrev other_way : UserPair
other_way = Quot.mk (7, 4)

-- Every id has a text of its own, without a colon.
abbrev keyed : Env
keyed = record env { id_text = λ id. (id + 59) ∷ [] }

keyed-HasKeys : HasKeys keyed
keyed-HasKeys = record {
  plain = λ id. ((λ e. absurd (omega arith)), tt);
  distinct = λ a b e. ground arith;
}

direct_key-injective_example : one_way ≡ other_way
unfolding direct_key
direct_key-injective_example = direct_key-injective keyed keyed-HasKeys one_way other_way refl

abbrev reader : Socket
reader = record { id = 100; user = 1; is_owner = false; rooms = user_room 1 ∷ [] }

abbrev reading : Server
reading = record server { connections = reader ∷ [] }

-- User 2 writes to the chat in which user 1 has a socket.
abbrev news : MessageEvent
news = record {
  sender = 2;
  conversation = chat;
  message = 40;
  type = MessageType.plain;
  preview = text "hello";
  actor_name = text "Ann";
}

on_message_created-join_example : Keeps (IsUntold 1 [] []) (announced env reader 10 reading news)
unfolding find_socket active_member member_doc
on_message_created-join_example =
    on_message_created-join env reader 10 chat reading news [] [] refl refl refl
