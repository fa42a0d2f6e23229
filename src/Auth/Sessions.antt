-- ===== src/Auth/Sessions.antt =====
-- The sessions in Redis: `createSession` to `deleteAllSessions` of src/common/redis/redis.service.ts.
-- A payload is the record that its JSON spells, and always parses.
use chatwave_backend.Base.{
  ℕ, ◌+◌, not, Option, none, some, List, [], ◌∷◌, ◌++◌, ◌==◌, if◌then◌else◌, filter, mem, or_else,
}
use chatwave_backend.Schema.Session.{SessionMeta, SessionRecord}
use chatwave_backend.World.State.{Sessions}
use chatwave_backend.World.Ttl.{Entry, get, put, del, expire, del_all}
use chatwave_backend.Auth.Devices.{device_label, browser_name}
use chatwave_backend.Env.{Env}

-- `SESSION_TTL`, in milliseconds
abbrev pub session_ttl : ℕ
session_ttl = 604800000

-- SADD and SREM
abbrev pub add_member : ℕ → List ℕ → List ℕ
add_member id ids = if mem id ids then ids else ids ++ id ∷ []

abbrev pub drop_member : ℕ → List ℕ → List ℕ
drop_member id ids = filter (λ x. not (x == id)) ids

abbrev pub members : ℕ → ℕ → Sessions → List ℕ
members now user s = or_else (get now user s.sets) []

unfoldable pub new_record : Env → ℕ → ℕ → SessionMeta → SessionRecord
new_record env now user input = record {
  user = user;
  created_at = now;
  last_active_at = now;
  user_agent = input.user_agent;
  ip = input.ip;
  platform = input.platform;
  device = device_label env input.user_agent input.platform;
  browser = browser_name env input.user_agent;
  city = [];
  country = [];
}

unfoldable pub create_session : Env → ℕ → ℕ → ℕ → SessionMeta → Sessions → Sessions
create_session env now id user input s = record {
  keys = put id (new_record env now user input) (now + session_ttl) s.keys;
  sets = put user (add_member id (members now user s)) (now + session_ttl) s.sets;
}

unfoldable pub get_session : ℕ → ℕ → Sessions → Option SessionRecord
get_session now id s = get now id s.keys

abbrev refreshed : Option SessionRecord → ℕ → ℕ → ℕ → Sessions → Sessions
refreshed none now id user s = s
refreshed (some payload) now id user s = record {
  keys = put id (record payload { last_active_at = now }) (now + session_ttl) s.keys;
  sets = expire now user (now + session_ttl) s.sets;
}

unfoldable pub refresh_session : ℕ → ℕ → ℕ → Sessions → Sessions
refresh_session now id user s = refreshed (get now id s.keys) now id user s

abbrev with_rows : Option SessionRecord → ℕ → List (ℕ × SessionRecord) → List (ℕ × SessionRecord)
with_rows none id rows = rows
with_rows (some row) id rows = (id, row) ∷ rows

abbrev pub rows_of : ℕ → List ℕ → Sessions → List (ℕ × SessionRecord)
rows_of now [] s = []
rows_of now (id ∷ ids) s = with_rows (get now id s.keys) id (rows_of now ids s)

unfoldable pub list_user_sessions : ℕ → ℕ → Sessions → List (ℕ × SessionRecord)
list_user_sessions now user s = rows_of now (members now user s) s

abbrev pub drop_from : ℕ → ℕ → List (Entry (List ℕ)) → List (Entry (List ℕ))
drop_from user id [] = []
drop_from user id (e ∷ es) =
    if e.key == user
    then record e { value = drop_member id e.value } ∷ es
    else e ∷ drop_from user id es

unfoldable pub delete_session : ℕ → ℕ → Sessions → Sessions
delete_session id user s = record { keys = del id s.keys; sets = drop_from user id s.sets }

unfoldable pub delete_all_sessions : ℕ → ℕ → Sessions → Sessions
delete_all_sessions now user s = record {
  keys = del_all (members now user s) s.keys;
  sets = del user s.sets;
}
