-- ===== src/Users/Presence.antt =====
-- The presence keys: `setLivePresence` to `listOnlineUserIds` of src/common/redis/redis.service.ts.
use chatwave_backend.Base.{
  ℕ, ◌+◌, Bool, Option, none, some, List, if◌then◌else◌, filter, is_some, is_none,
}
use chatwave_backend.Schema.User.{Presence, online, away, offline}
use chatwave_backend.World.State.{Presences, Action, gets, modify, pure, ◌>>=◌, ◌>>◌}
use chatwave_backend.World.Ttl.{get, put, del}
use chatwave_backend.Auth.Sessions.{add_member, drop_member}

-- `PRESENCE_TTL` and `LAST_SEEN_THROTTLE`, in milliseconds
abbrev pub presence_ttl : ℕ
presence_ttl = 45000

abbrev pub last_seen_throttle : ℕ
last_seen_throttle = 60000

unfoldable pub set_live_presence : ℕ → ℕ → Presence → Presences → Presences
set_live_presence now user presence p = record p {
  live = put user presence (now + presence_ttl) p.live;
  online = add_member user p.online;
}

unfoldable pub clear_live_presence : ℕ → Presences → Presences
clear_live_presence user p = record p { live = del user p.live; online = drop_member user p.online }

-- `value === 'online' || value === 'away' ? value : null`
abbrev pub as_live : Option Presence → Option Presence
as_live (some online) = some online
as_live (some away) = some away
as_live _ = none

unfoldable pub live_presence : ℕ → ℕ → Presences → Option Presence
live_presence now user p = as_live (get now user p.live)

-- `getLivePresence` takes a user whose key is gone out of `online_users`.
unfoldable pub settle_presence : ℕ → ℕ → Presences → Presences
settle_presence now user p =
    if is_none (get now user p.live) then record p { online = drop_member user p.online } else p

unfoldable pub is_live_user : ℕ → Presences → ℕ → Bool
unfolding live_presence
is_live_user now p user = is_some (live_presence now user p)

unfoldable pub list_online : ℕ → Presences → List ℕ
list_online now p = filter (is_live_user now p) p.online

-- `listOnlineUserIds` takes the others out of the set.
unfoldable pub prune_online : ℕ → Presences → Presences
prune_online now p = record p { online = list_online now p }

-- SET with NX: whether the key was free
unfoldable pub is_claim_free : ℕ → ℕ → Presences → Bool
is_claim_free now user p = is_none (get now user p.claims)

unfoldable pub claim : ℕ → ℕ → Presences → Presences
claim now user p = record p { claims = put user 1 (now + last_seen_throttle) p.claims }

unfoldable pub get_live_presence : ℕ → Action (Option Presence)
get_live_presence user = do
  found ← gets (λ w. live_presence w.now user w.presences)
  modify (λ w. record w { presences = settle_presence w.now user w.presences })
  pure found

abbrev pub or_offline : Option Presence → Presence
or_offline none = offline
or_offline (some p) = p

-- `livePresence` of src/users/users.service.ts
unfoldable pub presence_of : ℕ → Action Presence
presence_of user = do found ← get_live_presence user; pure (or_offline found)
