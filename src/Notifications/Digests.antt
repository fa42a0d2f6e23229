-- ===== src/Notifications/Digests.antt =====
-- The unread digests: the keys in src/common/redis/redis.service.ts, and `sendDigests` of
-- src/notifications/notifications.service.ts.
use chatwave_backend.Base.{
  ℕ, ◌+◌, Bool, false, not, Option, none, some, [], ◌∷◌, ◌==◌, filter, find,
}
use chatwave_backend.Base.Text.{Text}
use chatwave_backend.Schema.User.{User}
use chatwave_backend.World.State.{
  World, Emit, Digest, Action, pure, gets, modify, ◌>>=◌, ◌>>◌, for_each, on_some, branch,
}
use chatwave_backend.World.Effects.{emit}
use chatwave_backend.Users.{find_active_by_id}
use chatwave_backend.Auth.Sessions.{add_member, drop_member}

abbrev pub is_digest_of : ℕ → Digest → Bool
is_digest_of user d = d.user == user

abbrev pub count_of : Option Digest → ℕ
count_of none = 0
count_of (some d) = d.count

unfoldable pub bump_digest : ℕ → Text → World → World
bump_digest user preview w = record w {
  digests =
      record {
        user = user;
        count = count_of (find (is_digest_of user) w.digests) + 1;
        preview = preview;
      }
      ∷ filter (λ d. not (is_digest_of user d)) w.digests;
  digest_pending = add_member user w.digest_pending;
}

unfoldable pub drop_digest : ℕ → World → World
drop_digest user w = record w {
  digests = filter (λ d. not (is_digest_of user d)) w.digests;
  digest_pending = drop_member user w.digest_pending;
}

-- The count of a key is never zero.
unfoldable pub take_digest : ℕ → Action (Option Digest)
take_digest user = do
  found ← gets (λ w. find (is_digest_of user) w.digests)
  modify (drop_digest user)
  pure found

-- `user.settings?.unreadDigest === true`
abbrev pub wants_digest : Option User → Bool
wants_digest none = false
wants_digest (some u) = elim u.settings.unread_digest [ none ↦ false | some b ↦ b ]

abbrev email_of : Option User → Text
email_of none = []
email_of (some u) = u.email

abbrev name_of : Option User → Text
name_of none = []
name_of (some u) = u.name

-- the body of the loop of `sendDigests`
unfoldable pub send_digest : ℕ → Action (Unit {0})
send_digest id = do
  person ← find_active_by_id id
  digest ← take_digest id
  branch (not (wants_digest person)) (pure tt) (
      on_some digest tt
        λ d. emit (Emit.mail_digest (email_of person) (name_of person) d.count d.preview))

unfoldable pub send_digests : Action (Unit {0})
send_digests = do ids ← gets (λ w. w.digest_pending); for_each ids send_digest
