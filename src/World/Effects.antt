-- ===== src/World/Effects.antt =====
-- Reads and writes of the collections and keys (src/common/redis/redis.service.ts for the keys).
use chatwave_backend.Base.{
  ℕ, ◌+◌, ◌*◌, Bool, Option, none, some, List, [], ◌∷◌, ◌++◌, ◌==◌, ◌&&◌, ltb, not, filter, find,
}
use chatwave_backend.Base.Rows.{find_row, save_row}
use chatwave_backend.Schema.User.{User}
use chatwave_backend.Schema.Conversation.{Conversation}
use chatwave_backend.Schema.Message.{Message}
use chatwave_backend.Schema.Call.{Call}
use chatwave_backend.World.State.{
  World, Emit, RedisKey, RateCounter, Action, gets, modify, ◌>>=◌, ◌>>◌, pure,
}

abbrev pub user_id : User → ℕ
user_id u = u.id

abbrev pub conversation_id : Conversation → ℕ
conversation_id c = c.id

abbrev pub message_id : Message → ℕ
message_id m = m.id

abbrev pub call_id : Call → ℕ
call_id c = c.id

unfoldable pub emit : Emit → Action (Unit {0})
unfolding modify
emit e = modify (λ w. record w { outbox = w.outbox ++ e ∷ [] })

-- `new Types.ObjectId()` of a document that is created
unfoldable pub fresh_id : Action ℕ
fresh_id w =
    (chatwave_backend.World.State.Result.ok w.next_id, record w { next_id = w.next_id + 1 })

unfoldable pub load_user : ℕ → Action (Option User)
unfolding gets
load_user id = gets (λ w. find_row user_id id w.users)

unfoldable pub load_conversation : ℕ → Action (Option Conversation)
unfolding gets
load_conversation id = gets (λ w. find_row conversation_id id w.conversations)

unfoldable pub save_conversation : Conversation → Action (Unit {0})
unfolding modify
save_conversation row =
    modify (λ w. record w { conversations = save_row conversation_id row w.conversations })

unfoldable pub create_conversation : Conversation → Action (Unit {0})
unfolding modify
create_conversation row = modify (λ w. record w { conversations = w.conversations ++ row ∷ [] })

unfoldable pub load_message : ℕ → Action (Option Message)
unfolding gets
load_message id = gets (λ w. find_row message_id id w.messages)

unfoldable pub save_message : Message → Action (Unit {0})
unfolding modify
save_message row = modify (λ w. record w { messages = save_row message_id row w.messages })

unfoldable pub create_message : Message → Action (Unit {0})
unfolding modify
create_message row = modify (λ w. record w { messages = w.messages ++ row ∷ [] })

unfoldable pub load_call : ℕ → Action (Option Call)
unfolding gets
load_call id = gets (λ w. find_row call_id id w.calls)

unfoldable pub save_call : Call → Action (Unit {0})
unfolding modify
save_call row = modify (λ w. record w { calls = save_row call_id row w.calls })

unfoldable pub create_call : Call → Action (Unit {0})
unfolding modify
create_call row = modify (λ w. record w { calls = w.calls ++ row ∷ [] })

-- Redis: SET with EX, GET, DEL
abbrev pub set_key : ℕ → ℕ → ℕ → List RedisKey → List RedisKey
set_key k v expires ks =
    record { key = k; value = v; expires_at = expires } ∷ filter (λ r. not (r.key == k)) ks

abbrev pub get_key : ℕ → ℕ → List RedisKey → Option RedisKey
get_key now k ks = find (λ r. r.key == k && ltb now r.expires_at) ks

abbrev pub del_key : ℕ → List RedisKey → List RedisKey
del_key k ks = filter (λ r. not (r.key == k)) ks

abbrev key_value : Option RedisKey → Option ℕ
key_value none = none
key_value (some r) = some r.value

unfoldable pub set_call_ring : ℕ → ℕ → Action (Unit {0})
unfolding modify
set_call_ring call ttl =
    modify (λ w. record w { call_ring = set_key call 1 (w.now + ttl * 1000) w.call_ring })

unfoldable pub clear_call_ring : ℕ → Action (Unit {0})
unfolding modify
clear_call_ring call = modify (λ w. record w { call_ring = del_key call w.call_ring })

unfoldable pub set_call_busy : ℕ → ℕ → ℕ → Action (Unit {0})
unfolding modify
set_call_busy user call ttl =
    modify (λ w. record w { call_busy = set_key user call (w.now + ttl * 1000) w.call_busy })

unfoldable pub get_call_busy : ℕ → Action (Option ℕ)
unfolding gets
get_call_busy user = gets (λ w. key_value (get_key w.now user w.call_busy))

unfoldable pub clear_call_busy : ℕ → Action (Unit {0})
unfolding modify
clear_call_busy user = modify (λ w. record w { call_busy = del_key user w.call_busy })

-- `tooMany(key, max, windowSec)`: INCR, and EXPIRE on the first count
abbrev rate_of : ℕ → ℕ → ℕ → List RateCounter → Option RateCounter
rate_of now user chat rs =
    find (λ r. r.user == user && r.conversation == chat && ltb now r.expires_at) rs

abbrev bumped : ℕ → ℕ → ℕ → ℕ → Option RateCounter → RateCounter
bumped now user chat window none = record {
  user = user;
  conversation = chat;
  count = 1;
  expires_at = now + window * 1000;
}
bumped now user chat window (some r) = record r { count = r.count + 1 }

unfoldable pub too_many : ℕ → ℕ → ℕ → ℕ → Action Bool
too_many user chat most window w =
    let r = bumped w.now user chat window (rate_of w.now user chat w.rates) in
    (
      chatwave_backend.World.State.Result.ok (ltb most r.count),
      record w { rates = r ∷ filter (λ x. not (x.user == user && x.conversation == chat)) w.rates },
    )
