-- ===== src/Settings/Service.antt =====
-- The handlers of src/settings/settings.service.ts. The mail to confirm a deletion is sent; a mail
-- server that refuses it is not modelled.
use chatwave_backend.Base.{ℕ, not}
use chatwave_backend.Env.{Env}
use chatwave_backend.Schema.Settings.{StoredSettings, UserSettings}
use chatwave_backend.Schema.User.{User, AuthViewer}
use chatwave_backend.World.State.{
  Emit, Action, pure, modify, ◌>>=◌, ◌>>◌, throw_if, or_throw, bad_request,
}
use chatwave_backend.World.Effects.{emit, fresh_id}
use chatwave_backend.Settings.Merge.{merge_settings, stored, are_allowed}
use chatwave_backend.Users.Closing.{close_account}
use chatwave_backend.Users.Store.{require_active, save_user}
use chatwave_backend.Auth.Codes.{set_delete_token, consume_delete_token}
use chatwave_backend.Auth.Service.{revoke_all}

-- The settings that `getForUser` shows.
unfoldable pub shown_settings : User → UserSettings
shown_settings row = merge_settings row.settings chatwave_backend.Settings.Merge.no_settings

unfoldable pub get_settings : AuthViewer → Action UserSettings
get_settings viewer = do row ← require_active viewer.id; pure (shown_settings row)

unfoldable pub update : AuthViewer → StoredSettings → Action UserSettings
update viewer patch = do
  row ← require_active viewer.id
  let settings = merge_settings row.settings patch
  throw_if (not (are_allowed settings.sound_favorites)) (bad_request "That sound is not available")
  save_user (λ u. record u { settings = stored settings }) row
  get_settings viewer

-- `DELETE_TTL`, in seconds
abbrev pub delete_ttl : ℕ
delete_ttl = 1800

-- The token is the draw that `randomBytes` makes of it.
unfoldable pub request_delete : AuthViewer → Action (Unit {0})
request_delete viewer = do
  row ← require_active viewer.id
  token ← fresh_id
  set_delete_token token row.id delete_ttl
  emit (Emit.mail_delete_account row.email token)

unfoldable pub confirm_delete : Env → ℕ → Action (Unit {0})
confirm_delete env token = do
  user ← or_throw (← consume_delete_token token) (bad_request "This link has expired")
  close_account env user
  modify (revoke_all user)
