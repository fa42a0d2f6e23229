-- ===== src/Users/Closing.antt =====
-- The cached viewer, and the end and the return of an account (src/users/users.service.ts).
use chatwave_backend.Base.{ℕ, ◌+◌, not, Option, none, some, ◌++◌, if◌then◌else◌, is_some}
use chatwave_backend.Base.Rows.{find_row}
use chatwave_backend.Base.Text.{Text, text}
use chatwave_backend.Env.{Env, is_mongo_id}
use chatwave_backend.Schema.User.{User, active, banned, offline, AuthViewer}
use chatwave_backend.World.State.{World, Action, pure, gets, modify, ◌>>=◌, ◌>>◌, on_some, branch}
use chatwave_backend.World.Effects.{user_id}
use chatwave_backend.World.Ttl.{get, put, del}
use chatwave_backend.Auth.Devices.{starts_with}
use chatwave_backend.Users.{find_by_id, is_managed_user_hidden}
use chatwave_backend.Users.Store.{update_user}
use chatwave_backend.Users.Accounts.{go_offline}

module _ (env : Env) where
  -- `AUTHZ_TTL`, in milliseconds
  abbrev pub authz_ttl : ℕ
  authz_ttl = 60000

  abbrev viewer_of : Option User → Option AuthViewer
  viewer_of none = none
  viewer_of (some u) =
      if is_managed_user_hidden u then none else some (record { id = u.id; is_owner = u.is_owner })

  -- What the collection says of the viewer.
  unfoldable pub stored_viewer : ℕ → World → Option AuthViewer
  stored_viewer id w = viewer_of (find_row user_id id w.users)

  unfoldable pub cache_viewer : ℕ → AuthViewer → World → World
  cache_viewer id viewer w = record w { authz = put id viewer (w.now + authz_ttl) w.authz }

  unfoldable pub read_viewer : ℕ → Action (Option AuthViewer)
  read_viewer id = do
    found ← gets (stored_viewer id)
    on_some found none λ viewer. do modify (cache_viewer id viewer); pure (some viewer)

  unfoldable pub get_auth_viewer : ℕ → Action (Option AuthViewer)
  get_auth_viewer id = branch (not (is_mongo_id env id)) (pure none) do
    cached ← gets (λ w. get w.now id w.authz)
    branch (is_some cached) (pure cached) (read_viewer id)

  unfoldable pub forget_auth_viewer : ℕ → Action (Unit {0})
  forget_auth_viewer id = modify (λ w. record w { authz = del id w.authz })

  unfoldable pub close_account : ℕ → Action (Unit {0})
  close_account id = do
    go_offline env id
    forget_auth_viewer id
    modify (λ w.
        update_user id
          (λ u. record u { deleted_at = some w.now; status = banned; presence = offline }) w)

  unfoldable pub ban_account : ℕ → Action (Option User)
  ban_account id = do
    go_offline env id
    forget_auth_viewer id
    modify (update_user id (λ u. record u { status = banned; presence = offline }))
    find_by_id id

  unfoldable pub unban_account : ℕ → Action (Option User)
  unban_account id = do
    forget_auth_viewer id
    modify (update_user id (λ u. record u { status = active }))
    find_by_id id

  abbrev deleted_email : User → Text
  deleted_email u =
      if starts_with u.email (text "deleted_")
      then u.email
      else text "deleted_" ++ env.id_text u.id ++ text "_" ++ u.email

  abbrev deleted : ℕ → User → User
  deleted now u = record u {
    deleted_at = some now;
    status = banned;
    presence = offline;
    email = deleted_email u;
  }

  unfoldable pub delete_user : User → Action (Option User)
  delete_user row = do
    go_offline env row.id
    forget_auth_viewer row.id
    now ← gets (λ w. w.now)
    modify (update_user row.id (deleted now))
    pure (some (deleted now row))

  unfoldable pub admin_delete : ℕ → Action (Option User)
  admin_delete id = do
    found ← find_by_id id
    on_some found none λ row. branch (is_some row.deleted_at) (pure (some row)) (delete_user row)
