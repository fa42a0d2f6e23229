-- ===== src/Tests/Accounts.antt =====
-- The rules of sessions, accounts, settings, moderation and notifications at concrete inputs.
use chatwave_backend.Base.{
  ℕ, ◌≡◌, ◌≢◌, ◌≤◌, refl, arith, true, false, none, some, [], ◌∷◌, ◌==◌, Bool-cases, inl, inr,
}
use chatwave_backend.Base.Text.{Text, text, trim}
use chatwave_backend.Schema.User.{User, Presence}
use chatwave_backend.Schema.Session.{SessionMeta, SessionPlatform}
use chatwave_backend.Schema.Settings.{StoredSettings, StoredFavorites, FavoritesDto}
use chatwave_backend.Schema.Notification.{Notification, NotificationType}
use chatwave_backend.World.State.{
  Result, World, Presences, ok, or_throw, branch, modify, pure, gets, and_then, ◌>>=◌, ◌>>◌, when,
  throw_if,
}
use chatwave_backend.Auth.Sessions.{create_session, get_session, new_record, delete_all_sessions}
use chatwave_backend.Auth.Codes.{otp_count_of, get_otp_hash, delete_otp}
use chatwave_backend.Auth.Reset.{resolve-reset_password}
use chatwave_backend.Auth.Index.{IsIndexed, create_session-IsIndexed}
use chatwave_backend.Auth.Service.{
  write_session, session_of, logout_all, revoke_all, touch_session, reset_password, assert_allowed,
}
use chatwave_backend.Auth.Guard.{Credentials}
use chatwave_backend.Auth.Guard.{resolve, resolve_cookie}
use chatwave_backend.Auth.Revoked.{Holds, resolve-logout_all}
use chatwave_backend.Auth.Banned.{resolve-ban}
use chatwave_backend.Auth.Lifetime.{signed_in_at, resolve-create_session}
use chatwave_backend.Auth.Reach.{SessionStep, Reaches, Reaches-IsIndexed}
use chatwave_backend.Auth.Throttle.{ask_all, codes_mailed, codes_mailed-ask_all}
use chatwave_backend.Users.{find_by_id, is_banned, is_managed_user_hidden}
use chatwave_backend.Audit.{log}
use chatwave_backend.World.Effects.{emit, fresh_id}
use chatwave_backend.Users.Viewers.{IsFresh, get_auth_viewer-stored}
use chatwave_backend.Users.Accounts.{go_offline}
use chatwave_backend.Users.Closing.{forget_auth_viewer, stored_viewer, ban_account, get_auth_viewer}
use chatwave_backend.Users.Signup.{find_by_email}
use chatwave_backend.Users.Store.{save_user, assert_unique, update_user}
use chatwave_backend.Users.Live.{IsOnlineSet, IsOnlineSet-kept}
use chatwave_backend.Users.Presence.{
  set_live_presence, clear_live_presence, settle_presence, prune_online, is_live_user,
  live_presence,
}
use chatwave_backend.Users.Naming.{IsName, username_from_email-IsName}
use chatwave_backend.Users.Names.{username_from_email}
use chatwave_backend.Settings.Merge.{merge_favorites, dto_favorites}
use chatwave_backend.Settings.Laws.{merge_favorites-dto}
use chatwave_backend.Admin.Owner.{IsRow, moderation-IsRow}
use chatwave_backend.World.Keeps.{Keeps}
use chatwave_backend.Admin.Service.{
  ban, unban, remove_user, require_moderatable, require_user, announce_ban,
}
use chatwave_backend.Notifications.Pending.{send_digests-pending}
use chatwave_backend.Notifications.Digests.{send_digests}
use chatwave_backend.Tests.Calls.{env, viewer, user, lobby, no_settings}

abbrev browser : SessionMeta
browser = record {
  user_agent = text "Firefox/1";
  ip = text "10.0.0.7";
  platform = SessionPlatform.web;
}

abbrev ann : ℕ
ann = 1

abbrev bob : ℕ
bob = 2

-- Session 40 of user 1 and session 41 of user 2.
abbrev signed_in : World
signed_in = write_session env 41 2 browser (write_session env 40 1 browser lobby)

lobby-IsIndexed : IsIndexed 10000 lobby.sessions
lobby-IsIndexed id e h fresh = absurd (ground arith)

signed_in-IsIndexed : IsIndexed 10000 signed_in.sessions
unfolding write_session
signed_in-IsIndexed =
    create_session-IsIndexed env 10000 41 2 browser
      (create_session env 10000 40 1 browser lobby.sessions)
      (create_session-IsIndexed env 10000 40 1 browser lobby.sessions lobby-IsIndexed)

abbrev by_cookie : Credentials
by_cookie = record { token = none; cookie = some 41 }

-- User 1 signs out everywhere; the cookie of user 2 still signs in user 2.
resolve-logout_all_example : bob ≢ ann
unfolding write_session create_session new_record logout_all go_offline update_user
    clear_live_presence revoke_all delete_all_sessions resolve resolve_cookie session_of get_session
    or_throw branch modify emit pure gets and_then ◌>>=◌ ◌>>◌
resolve-logout_all_example =
    resolve-logout_all env signed_in 1 by_cookie 41 2
      (resolve env by_cookie (logout_all env 1 signed_in).1).1 signed_in-IsIndexed refl

-- User 1 is banned; the cookie of user 2 still signs in user 2.
resolve-ban_example : bob ≢ ann
unfolding write_session create_session new_record ban require_moderatable require_user find_by_id
    ban_account forget_auth_viewer announce_ban go_offline update_user clear_live_presence
    revoke_all log fresh_id when throw_if delete_all_sessions resolve resolve_cookie session_of
    get_session or_throw branch modify emit pure gets and_then ◌>>=◌ ◌>>◌
resolve-ban_example =
    resolve-ban env (viewer 2) 1 signed_in (user 1) by_cookie 41 2
      (resolve env by_cookie (ban env (viewer 2) 1 signed_in).1).1 refl refl refl
      signed_in-IsIndexed refl

signed_in-used : Holds signed_in 40 1
unfolding write_session create_session new_record get_session
signed_in-used = record { row = new_record env 10000 1 browser; given = refl; owner = refl }

Reaches-IsIndexed_example : IsIndexed 10000 (revoke_all 2 (touch_session 40 1 signed_in)).sessions
unfolding write_session touch_session revoke_all
Reaches-IsIndexed_example =
    Reaches-IsIndexed env signed_in (revoke_all 2 (touch_session 40 1 signed_in))
      (Reaches.step signed_in (touch_session 40 1 signed_in)
        (revoke_all 2 (touch_session 40 1 signed_in))
        (SessionStep.used 40 1 signed_in signed_in-used)
        (Reaches.step (touch_session 40 1 signed_in) (revoke_all 2 (touch_session 40 1 signed_in))
          (revoke_all 2 (touch_session 40 1 signed_in))
          (SessionStep.signed_out_everywhere 2 (touch_session 40 1 signed_in))
          (Reaches.stay (revoke_all 2 (touch_session 40 1 signed_in)))))
      signed_in-IsIndexed

resolve-create_session_example :
    (resolve env
      (record { token = none; cookie = some 40 })
      (signed_in_at env 0 604799999 40 1 browser lobby)).0
    ≡ ok (40, 1)
resolve-create_session_example = resolve-create_session env 0 604799999 40 1 browser lobby

-- Three requests for user 1's code in three minutes.
codes_mailed-ask_all_example :
    codes_mailed
      (text "ann@chat.wave")
      (ask_all env
        (record { time = 10000; email = text "ann@chat.wave" }
          ∷ record { time = 70000; email = text "ann@chat.wave" }
          ∷ record { time = 130000; email = text "ann@chat.wave" }
          ∷ [])
        lobby).outbox
    ≤ 5
unfolding codes_mailed otp_count_of
codes_mailed-ask_all_example =
    codes_mailed-ask_all env (text "ann@chat.wave") 10000
      (record { time = 70000; email = text "ann@chat.wave" }
        ∷ record { time = 130000; email = text "ann@chat.wave" }
        ∷ [])
      lobby refl (refl, (refl, tt))

-- The cache holds user 1, who is stored and active.
abbrev cached : World
cached = record lobby {
  authz = record { key = 1; value = record { id = 1; is_owner = false }; expires_at = 70000 } ∷ [];
}

cached-IsFresh : IsFresh env cached
unfolding stored_viewer is_managed_user_hidden
cached-IsFresh = record {
  agrees = λ id v e. elim (Bool-cases (ann == id)) [
    | inl t ↦ rw t (rw t at e)
    | inr f ↦ let gone = rw f at e in absurd (ground arith)
  ];
}

get_auth_viewer-stored_example : (get_auth_viewer env 1 cached).0 ≡ ok (stored_viewer env 1 cached)
get_auth_viewer-stored_example = get_auth_viewer-stored env 1 cached cached-IsFresh

-- User 1 is online until 55000, user 2 was until 9000.
abbrev around : Presences
around = record {
  live =
      record { key = 1; value = Presence.online; expires_at = 55000 }
      ∷ record { key = 2; value = Presence.away; expires_at = 9000 }
      ∷ [];
  online = 2 ∷ 1 ∷ [];
  claims = [];
}

around-IsOnlineSet : IsOnlineSet 10000 around
unfolding is_live_user live_presence
around-IsOnlineSet id h = elim (Bool-cases (ann == id)) [
  | inl t ↦ rw t (ground arith)
  | inr f ↦ elim (Bool-cases (bob == id)) [
    | inl t ↦ rw t (ground arith)
    | inr g ↦ let gone = rw (f, g) at h in absurd (ground arith)
  ]
]

IsOnlineSet-kept_example :
    IsOnlineSet 10000 (set_live_presence 10000 2 Presence.away around)
    × IsOnlineSet 10000 (clear_live_presence 2 around)
    × IsOnlineSet 10000 (settle_presence 10000 2 around)
    × IsOnlineSet 10000 (prune_online 10000 around)
IsOnlineSet-kept_example = IsOnlineSet-kept 10000 2 Presence.away around around-IsOnlineSet

username_from_email-IsName_example : IsName (username_from_email env (text "a+b@chat.wave"))
username_from_email-IsName_example = username_from_email-IsName env (text "a+b@chat.wave")

abbrev patch : StoredSettings
patch = record no_settings { reduce_motion = some true }

abbrev only_bell : FavoritesDto
only_bell = record {
  send = none;
  typing = none;
  notify = some (text "bell");
  incoming = none;
  call_start = none;
  call_end = none;
  delete = none;
}

abbrev only_send : Text → StoredFavorites
only_send sound = record {
  send = some (some sound);
  typing = none;
  notify = none;
  incoming = none;
  call_start = none;
  call_end = none;
  delete = none;
}

merge_favorites-dto_example :
    merge_favorites (some (only_send (text "bubble"))) (some (dto_favorites only_bell))
    ≡ merge_favorites none (some (dto_favorites only_bell))
merge_favorites-dto_example = merge_favorites-dto (some (only_send (text "bubble"))) only_bell

abbrev laser : StoredSettings
laser = record no_settings { sound_favorites = some (only_send (text "laser")) }

abbrev owner : User
owner = record (user 3) { is_owner = true }

moderation-IsRow_example :
    Keeps (IsRow owner) (ban env (viewer 1) 3)
    × Keeps (IsRow owner) (unban env (viewer 1) 3)
    × Keeps (IsRow owner) (remove_user env (viewer 1) 3)
moderation-IsRow_example = moderation-IsRow owner refl env (viewer 1) 3

abbrev note : ℕ → Notification
note id = record {
  id = id;
  user = 1;
  type = NotificationType.message;
  title = text "Bob";
  body = text "hi";
  conversation = none;
  message = none;
  call = none;
  actor = none;
  href = [];
  read_at = none;
  email_sent_at = none;
  created_at = 9000;
}

abbrev noted : World
noted = record lobby { notifications = note 50 ∷ note 51 ∷ []; digest_pending = 1 ∷ 2 ∷ [] }

send_digests-pending_example :
    (after : World) × (send_digests noted ≡ (ok tt, after)) × (after.digest_pending ≡ [])
send_digests-pending_example = send_digests-pending noted

abbrev bob_row : User
bob_row = record (user 2) { email = text "bob@chat.wave"; username = text "bob" }

-- The code 123456 was mailed to user 1; both users are signed in.
abbrev mailed : World
mailed = record signed_in {
  users = user 1 ∷ bob_row ∷ [];
  otps = record { email = text "ann@chat.wave"; hash = text "123456"; expires_at = 20000 } ∷ [];
}

abbrev reset : Result (Unit {0}) × World
reset = reset_password env (text "ann@chat.wave") (text "123456") (text "changed") mailed

resolve-reset_password_example : (bob ≢ ann) × (get_otp_hash (text "ann@chat.wave") reset.1 ≡ none)
unfolding write_session create_session new_record reset_password find_by_email get_otp_hash
    assert_allowed is_banned save_user assert_unique update_user delete_otp revoke_all fresh_id
    throw_if trim delete_all_sessions resolve resolve_cookie session_of get_session or_throw branch
    modify emit pure gets and_then ◌>>=◌ ◌>>◌
resolve-reset_password_example =
    resolve-reset_password env mailed (text "ann@chat.wave") (text "123456") (text "changed")
      (user 1) refl reset.1 by_cookie 41 2 (resolve env by_cookie reset.1).1 signed_in-IsIndexed
      refl refl
