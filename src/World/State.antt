-- ===== src/World/State.antt =====
-- The collections, the Redis keys and the messages sent to sockets, the exceptions of
-- @nestjs/common, and the monad of a handler.
use chatwave_backend.Base.{ℕ, String, Bool, Option, none, some, List, if◌then◌else◌}
use chatwave_backend.Base.Text.{Text}
use chatwave_backend.Schema.User.{User, Presence, AuthViewer}
use chatwave_backend.Schema.Session.{SessionRecord, OAuthProvider}
use chatwave_backend.Schema.Notification.{Notification, AuditEvent}
use chatwave_backend.Schema.Conversation.{Conversation}
use chatwave_backend.Schema.Message.{Message, MessageReceipt, DeleteScope}
use chatwave_backend.Schema.Call.{Call, CallStatus}
use chatwave_backend.Schema.Block.{Block, Contact}
use chatwave_backend.World.Ttl.{Entry}

-- `Preview` of src/messages/messages.constants.ts, less the icon and the date.
pub record Preview : Type 0 where
  pub user : ℕ
  pub preview : Text
  pub unread : ℕ

pub data LeaveReason : Type 0 where
  left removed : LeaveReason

-- What the services send to sockets and to the event bus. A whole document in a payload is given by
-- its id.
pub data Emit : Type 0 where
  call_incoming : (user call : ℕ) → Emit
  call_started : (conversation call : ℕ) → Emit
  call_accepted : (conversation : ℕ) (users : List ℕ) (call user : ℕ) → Emit
  call_declined : (conversation : ℕ) (users : List ℕ) (call user : ℕ) → Emit
  call_ended :
      (conversation : ℕ) (users : List ℕ) (call : ℕ) (status : CallStatus) (duration : ℕ)
      (ended_by : Option ℕ)
      → Emit
  call_missed : (users : List ℕ) (call : ℕ) → Emit
  call_joined : (call user : ℕ) (users : List ℕ) → Emit
  event_call_incoming : (call conversation actor : ℕ) (recipients : List ℕ) → Emit
  event_call_missed : (call conversation actor : ℕ) (recipients : List ℕ) → Emit
  message_new : (conversation message : ℕ) (previews : List Preview) → Emit
  message_updated : (message : ℕ) → Emit
  message_deleted : (message conversation : ℕ) → DeleteScope → (user : Option ℕ) → Emit
  message_receipts : (conversation message : ℕ) → List MessageReceipt → Emit
  event_message_created : (message conversation sender : ℕ) → Emit
  asset_deleted : (public_id : Text) → Emit
  group_updated : (conversation : ℕ) → Emit
  group_edited : (conversation : ℕ) → Emit  -- `group:updated` with `members: []`
  member_left : (conversation user : ℕ) → LeaveReason → Emit
  conversation_removed : (user conversation : ℕ) → Emit
  preview : (user conversation unread : ℕ) → Emit
  event_member_added : (conversation actor : ℕ) (users : List ℕ) → Emit
  blocked : (blocker blocked : ℕ) → Emit
  notification : (user notification : ℕ) → Emit
  badge : (user count : ℕ) → Emit
  kicked : (user : ℕ) → Emit
  cookie_set : (session : ℕ) → Emit
  cookie_cleared : Emit
  mail_otp : (email otp : Text) → Emit
  mail_banned : (email name : Text) → Emit
  mail_delete_account : (email : Text) (token : ℕ) → Emit
  mail_digest : (email name : Text) (count : ℕ) (preview : Text) → Emit
  mail_missed_call : (email name label : Text) → Emit

-- A Redis key with its value, gone from the instant at which it expires.
pub record RedisKey : Type 0 where
  pub key : ℕ
  pub value : ℕ
  pub expires_at : ℕ

-- The key `blocks:restricted:<user>` with the ids that it lists.
pub record RestrictedKey : Type 0 where
  pub user : ℕ
  pub ids : List ℕ
  pub expires_at : ℕ

-- The counter `rl:msg:<user>:<conversation>`.
pub record RateCounter : Type 0 where
  pub user : ℕ
  pub conversation : ℕ
  pub count : ℕ
  pub expires_at : ℕ

-- The keys `sess:<id>`, and `user_sessions:<user>`, the set of the user's session ids.
pub record Sessions : Type 0 where
  pub keys : List (Entry SessionRecord)
  pub sets : List (Entry (List ℕ))

-- The keys `presence:<user>` and `presence:seen:<user>`, and the set `online_users`.
pub record Presences : Type 0 where
  pub live : List (Entry Presence)
  pub online : List ℕ
  pub claims : List (Entry ℕ)

-- The keys `otp:reset:<email>` and `otp:reset:count:<email>`.
pub record OtpKey : Type 0 where
  pub email : Text
  pub hash : Text
  pub expires_at : ℕ

pub record OtpCount : Type 0 where
  pub email : Text
  pub count : ℕ
  pub expires_at : ℕ

-- The keys `digest:<user>` and `digest:<user>:preview`.
pub record Digest : Type 0 where
  pub user : ℕ
  pub count : ℕ
  pub preview : Text

pub record World : Type 0 where
  pub now : ℕ
  pub next_id : ℕ
  pub users : List User
  pub conversations : List Conversation
  pub messages : List Message
  pub calls : List Call
  pub blocks : List Block
  pub contacts : List Contact
  pub restricted : List RestrictedKey
  pub call_busy : List RedisKey  -- `call:busy:<user>`, the call's id
  pub call_ring : List RedisKey  -- `call:ring:<call>`
  pub rates : List RateCounter
  pub sessions : Sessions
  pub presences : Presences
  pub otps : List OtpKey
  pub otp_counts : List OtpCount
  pub delete_tokens : List (Entry ℕ)  -- `delete:<token>`, the user's id
  pub oauth_links : List (Entry OAuthProvider)
  pub authz : List (Entry AuthViewer)  -- `authz:<user>`
  pub sockets : List (Entry ℕ)  -- `socks:<user>`, the count; it never expires
  pub digests : List Digest
  pub digest_pending : List ℕ
  pub notify_rates : List (Entry ℕ)  -- `rl:notify:<user>`
  pub notifications : List Notification
  pub audits : List AuditEvent
  pub outbox : List Emit

pub data Exception : Type 0 where
  bad_request forbidden not_found conflict unauthorized unavailable oauth_flow database_error :
      String → Exception

pub data Result (A : Type 0) : Type 0 where
  ok : A → Result A
  thrown : Exception → Result A

abbrev pub Action : Type 0 → Type 0
Action A = World → Result A × World

module _ {A : Type 0} where
  unfoldable pub pure : A → Action A
  pure a w = (ok a, w)

  unfoldable pub throw : Exception → Action A
  throw e w = (thrown e, w)

  unfoldable pub gets : (World → A) → Action A
  gets f w = (ok (f w), w)

unfoldable pub modify : (World → World) → Action (Unit {0})
modify f w = (ok tt, f w)

unfoldable pub and_then : {A B : Type 0} → Result A × World → (A → Action B) → Result B × World
and_then (ok a, w) f = f a w
and_then (thrown e, w) f = (thrown e, w)

infixl 5 ◌>>=◌ ◌>>◌
unfoldable pub ◌>>=◌ : {A B : Type 0} → Action A → (A → Action B) → Action B
unfolding and_then
◌>>=◌ m f w = and_then (m w) f

unfoldable pub ◌>>◌ : {A B : Type 0} → Action A → Action B → Action B
unfolding ◌>>=◌
m >> k = m >>= λ _. k

-- `if (c) m`
unfoldable pub when : Bool → Action (Unit {0}) → Action (Unit {0})
unfolding pure
when c m = if c then m else pure tt

-- `if (c) throw e`
unfoldable pub throw_if : Bool → Exception → Action (Unit {0})
unfolding throw pure
throw_if c e = if c then throw e else pure tt

unfoldable pub or_throw : {A : Type 0} → Option A → Exception → Action A
unfolding throw pure
or_throw none e = throw e
or_throw (some a) e = pure a

-- `for (const x of xs) await body(x)`
unfoldable pub for_each : {A : Type 0} → List A → (A → Action (Unit {0})) → Action (Unit {0})
unfolding ◌>>◌ pure
for_each List.[] body = pure tt
for_each (List.◌∷◌ x xs) body = body x >> for_each xs body

-- `f(x)` where `x` may be missing, and a missing one is skipped
unfoldable pub for_some : {A : Type 0} → Option A → (A → Action (Unit {0})) → Action (Unit {0})
unfolding pure
for_some none body = pure tt
for_some (some a) body = body a

-- `if (!x) return b` before the rest
unfoldable pub on_some : {A B : Type 0} → Option A → B → (A → Action B) → Action B
unfolding pure
on_some none b rest = pure b
on_some (some a) b rest = rest a

-- `if (c) return … ` before the rest
unfoldable pub branch : {A : Type 0} → Bool → Action A → Action A → Action A
branch c m k = if c then m else k
