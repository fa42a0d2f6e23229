-- ===== src/Admin/Service.antt =====
-- The moderation handlers of src/admin/admin.service.ts, behind src/admin/owner.guard.ts. A DTO is given
-- by its user.
use chatwave_backend.Base.{ℕ, Bool, true, false, not, some, [], is_some, or_else}
use chatwave_backend.Base.Text.{text}
use chatwave_backend.Env.{Env, is_mongo_id}
use chatwave_backend.Schema.User.{User, UserStatus, active, banned, AuthViewer}
use chatwave_backend.Schema.Notification.{AuditKind}
use chatwave_backend.World.State.{
  Emit, Action, pure, modify, ◌>>=◌, ◌>>◌, throw_if, or_throw, branch, when, bad_request, forbidden,
  not_found,
}
use chatwave_backend.World.Effects.{emit}
use chatwave_backend.Audit.{log}
use chatwave_backend.Users.{is_banned, find_by_id}
use chatwave_backend.Users.Closing.{ban_account, unban_account, admin_delete}
use chatwave_backend.Auth.Service.{revoke_all}

abbrev is_active_status : UserStatus → Bool
is_active_status active = true
is_active_status banned = false

-- `OwnerGuard`
unfoldable pub assert_owner : AuthViewer → Action (Unit {0})
assert_owner viewer = throw_if (not viewer.is_owner) (forbidden "This area is only for the owner.")

module _ (env : Env) where
  unfoldable pub require_user : ℕ → Action User
  require_user id = do
    throw_if (not (is_mongo_id env id)) (not_found "User not found")
    or_throw (← find_by_id id) (not_found "User not found")

  -- `assertModeratable(await this.requireUser(id))`
  unfoldable pub require_moderatable : ℕ → Action User
  require_moderatable id = do
    row ← require_user id
    throw_if row.is_owner (bad_request "Cannot moderate the owner account")
    pure row

  -- the audit entry and the mail, where the user was not banned before
  unfoldable pub announce_ban : ℕ → User → Action (Unit {0})
  announce_ban actor saved = do
    log saved.id (some actor) AuditKind.ban (text "Account banned") []
    emit (Emit.mail_banned saved.email saved.name)

  unfoldable pub ban : AuthViewer → ℕ → Action User
  ban actor id = do
    row ← require_moderatable id
    found ← ban_account env row.id
    let saved = or_else found row
    modify (revoke_all saved.id)
    emit (Emit.kicked saved.id)
    when (not (is_banned row.status)) (announce_ban actor.id saved)
    pure saved

  unfoldable pub lift_ban : AuthViewer → User → Action User
  lift_ban actor row = do
    found ← unban_account env row.id
    let saved = or_else found row
    log saved.id (some actor.id) AuditKind.unban (text "Account unbanned") []
    pure saved

  unfoldable pub unban : AuthViewer → ℕ → Action User
  unban actor id = do
    row ← require_moderatable id
    throw_if (is_some row.deleted_at) (bad_request "This account was deleted")
    branch (is_active_status row.status) (pure row) (lift_ban actor row)

  unfoldable pub erase_user : AuthViewer → User → Action (Unit {0})
  erase_user actor row = do
    admin_delete env row.id
    modify (revoke_all row.id)
    emit (Emit.kicked row.id)
    log row.id (some actor.id) AuditKind.delete (text "Account deleted") []

  unfoldable pub remove_user : AuthViewer → ℕ → Action (Unit {0})
  remove_user actor id = do
    row ← require_moderatable id
    branch (is_some row.deleted_at) (pure tt) (erase_user actor row)
