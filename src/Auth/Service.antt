-- ===== src/Auth/Service.antt =====
-- The handlers of src/auth/auth.service.ts, less the sign-in by a provider, and of
-- src/sessions/sessions.service.ts. A cookie of the response goes to the outbox.
use chatwave_backend.Base.{
  ℕ, not, Option, none, some, [], ◌∷◌, ◌++◌, ◌==◌, ltb, if◌then◌else◌, is_some, String,
}
use chatwave_backend.Base.Text.{Text, text, trim}
use chatwave_backend.Env.{Env}
use chatwave_backend.Schema.User.{User, AuthViewer}
use chatwave_backend.Schema.Session.{
  OAuthProvider, google, github, SessionMeta, SessionRecord, SessionPlatform,
}
use chatwave_backend.Schema.Notification.{signup, login}
use chatwave_backend.World.State.{
  World, Emit, Action, pure, gets, modify, ◌>>=◌, ◌>>◌, throw_if, or_throw, on_some, branch, when,
  bad_request, forbidden, conflict, unauthorized,
}
use chatwave_backend.World.Effects.{emit, fresh_id}
use chatwave_backend.Messages.Labels.{decimal}
use chatwave_backend.Audit.{log}
use chatwave_backend.Users.{is_banned, is_managed_user_hidden}
use chatwave_backend.Users.Accounts.{mark_online, go_offline}
use chatwave_backend.Users.Signup.{find_by_email, create_local_user}
use chatwave_backend.Users.Store.{save_user, require_active}
use chatwave_backend.Auth.Devices.{detect_platform, client_ip, or_text}
use chatwave_backend.Auth.Sessions.{
  create_session, get_session, refresh_session, delete_session, delete_all_sessions,
}
use chatwave_backend.Auth.Codes.{
  otp_max, set_otp_hash, get_otp_hash, delete_otp, increment_otp_count,
}

abbrev platform_name : SessionPlatform → Text
platform_name SessionPlatform.web = text "web"
platform_name SessionPlatform.android = text "android"
platform_name SessionPlatform.ios = text "ios"

-- `padStart(6, '0')` of a number with at most six digits
abbrev pad_six : Text → Text
pad_six (a ∷ []) = text "00000" ++ a ∷ []
pad_six (a ∷ b ∷ []) = text "0000" ++ a ∷ b ∷ []
pad_six (a ∷ b ∷ c ∷ []) = text "000" ++ a ∷ b ∷ c ∷ []
pad_six (a ∷ b ∷ c ∷ d ∷ []) = text "00" ++ a ∷ b ∷ c ∷ d ∷ []
pad_six (a ∷ b ∷ c ∷ d ∷ e ∷ []) = text "0" ++ a ∷ b ∷ c ∷ d ∷ e ∷ []
pad_six s = s

unfoldable pub generate_otp : Env → ℕ → Text
generate_otp env seed = pad_six (decimal (env.random_below seed 1000000))

unfoldable pub assert_allowed : User → Action (Unit {0})
assert_allowed u = do
  throw_if (is_some u.deleted_at) (unauthorized "This account is no longer available")
  throw_if (is_banned u.status) (forbidden "This account has been banned")

-- The writes of the sessions' keys, each at the instant of the world.
unfoldable pub write_session : Env → ℕ → ℕ → SessionMeta → World → World
write_session env id user input w = record w {
  sessions = create_session env w.now id user input w.sessions;
}

unfoldable pub revoke_all : ℕ → World → World
revoke_all user w = record w { sessions = delete_all_sessions w.now user w.sessions }

unfoldable pub revoke_one : ℕ → ℕ → World → World
revoke_one id user w = record w { sessions = delete_session id user w.sessions }

unfoldable pub touch_session : ℕ → ℕ → World → World
touch_session id user w = record w { sessions = refresh_session w.now id user w.sessions }

unfoldable pub session_of : ℕ → World → Option SessionRecord
session_of id w = get_session w.now id w.sessions

abbrev city_of : Option SessionRecord → Text
city_of none = []
city_of (some s) = trim s.city

abbrev signed_in_detail : Option SessionRecord → SessionPlatform → Text
signed_in_detail none platform = text "ChatWave · ChatWave " ++ platform_name platform
signed_in_detail (some s) platform =
    or_text s.browser (text "ChatWave") ++ text " · ChatWave " ++ platform_name s.platform

abbrev pub taken_message : OAuthProvider → String
taken_message google = "This Google account is already linked to another ChatWave user"
taken_message github = "This GitHub account is already linked to another ChatWave user"

module _ (env : Env) where
  unfoldable pub register : Text → Text → Text → Action User
  register name email password = do
    existing ← find_by_email env email
    throw_if (is_some existing) (conflict "An account with this email already exists")
    salt ← fresh_id
    row ← create_local_user env name email (env.bcrypt_hash password salt)
    log row.id none signup (text "Joined ChatWave") []
    pure row

  unfoldable pub validate_local_user : Text → Text → Action User
  validate_local_user email password = do
    row ← or_throw (← find_by_email env email) (unauthorized "Invalid email or password")
    assert_allowed row
    hash ← or_throw row.password_hash (
        unauthorized
          "This account uses Google or GitHub to sign in. Continue with that provider, or reset your password.")
    throw_if (not (env.bcrypt_compare password hash)) (unauthorized "Invalid email or password")
    pure row

  -- The result is the session, which the access token names with the user.
  unfoldable pub issue_session : User → Text → Option Text → Option Text → Action ℕ
  issue_session row user_agent ip forwarded = do
    assert_allowed row
    mark_online env row
    let platform = detect_platform env user_agent
    id ← fresh_id
    modify (
        write_session env id row.id
          (record { user_agent = user_agent; ip = client_ip ip forwarded; platform = platform }))
    emit (Emit.cookie_set id)
    session ← gets (session_of id)
    log row.id none login (text "Signed in from " ++ or_text (city_of session) (text "the web"))
        (signed_in_detail session platform)
    pure id

  unfoldable pub login_local : Text → Text → Text → Option Text → Option Text → Action ℕ
  login_local email password user_agent ip forwarded = do
    row ← validate_local_user email password
    issue_session row user_agent ip forwarded

  abbrev pub if_open : Option User → Option User
  if_open none = none
  if_open (some u) = if is_managed_user_hidden u then none else some u

  unfoldable pub send_otp : Text → Action (Unit {0})
  send_otp email = do
    seed ← fresh_id
    salt ← fresh_id
    modify (set_otp_hash email (env.bcrypt_hash (generate_otp env seed) salt))
    emit (Emit.mail_otp email (generate_otp env seed))

  unfoldable pub forgot_password : Text → Action (Unit {0})
  forgot_password email = do
    count ← increment_otp_count email
    throw_if (ltb otp_max count) (bad_request "Too many reset attempts. Try again later.")
    found ← find_by_email env email
    on_some (if_open found) tt λ row. send_otp email

  unfoldable pub reset_password : Text → Text → Text → Action (Unit {0})
  reset_password email otp password = do
    row ← or_throw (← find_by_email env email) (bad_request "Invalid or expired code")
    hash ← or_throw (← gets (get_otp_hash email)) (bad_request "Invalid or expired code")
    assert_allowed row
    throw_if (not (env.bcrypt_compare otp hash)) (bad_request "Invalid or expired code")
    salt ← fresh_id
    save_user (λ u. record u { password_hash = some (env.bcrypt_hash password salt) }) row
    modify (delete_otp email)
    modify (revoke_all row.id)

  unfoldable pub get_me : ℕ → ℕ → Action User
  get_me user session = do
    modify (touch_session session user)
    emit (Emit.cookie_set session)
    require_active user

  unfoldable pub logout : ℕ → ℕ → Action (Unit {0})
  logout user session = do
    go_offline env user
    modify (revoke_one session user)
    emit Emit.cookie_cleared

  unfoldable pub logout_all : ℕ → Action (Unit {0})
  logout_all user = do go_offline env user; modify (revoke_all user); emit Emit.cookie_cleared

  -- `SessionsService.revoke`
  unfoldable pub revoke : AuthViewer → ℕ → ℕ → Action (Unit {0})
  revoke viewer session current = branch (session == current) (logout viewer.id current) do
    found ← gets (session_of session)
    on_some found tt λ row. when (row.user == viewer.id) (modify (revoke_one session viewer.id))
