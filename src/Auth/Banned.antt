-- ===== src/Auth/Banned.antt =====
-- What a ban of src/admin/admin.service.ts leaves of the user's sessions.
use chatwave_backend.Base.{
  ℕ, ◌≡◌, ◌≢◌, refl, sym, ◌∙◌, ap, true, false, some, inl, inr, Option-cases, Bool-cases, List,
  or_else,
}
use chatwave_backend.Base.Rows.{find_row, key-find_row}
use chatwave_backend.Env.{Env, is_mongo_id}
use chatwave_backend.Schema.User.{User, AuthViewer}
use chatwave_backend.World.State.{
  World, ok, gets, pure, throw, throw_if, or_throw, and_then, ◌>>=◌, ◌>>◌, modify, when,
}
use chatwave_backend.World.Effects.{emit, fresh_id, user_id}
use chatwave_backend.Users.{find_by_id, is_banned}
use chatwave_backend.Audit.{log}
use chatwave_backend.Users.Accounts.{go_offline}
use chatwave_backend.Users.Closing.{ban_account, forget_auth_viewer}
use chatwave_backend.Users.Store.{update_user}
use chatwave_backend.Auth.Sessions.{delete_all_sessions}
use chatwave_backend.Auth.Index.{IsIndexed}
use chatwave_backend.Auth.Service.{revoke_all}
use chatwave_backend.Auth.Guard.{Credentials}
use chatwave_backend.Auth.Guard.{resolve}
use chatwave_backend.Auth.Revoked.{resolve-delete_all}
use chatwave_backend.Admin.Service.{require_user, require_moderatable, announce_ban, ban}

module _ (env : Env) where
  require_moderatable-run :
      (id : ℕ) (w : World) (row : User)
      → is_mongo_id env id ≡ true
      → find_row user_id id w.users ≡ some row
      → row.is_owner ≡ false
      → require_moderatable env id w ≡ (ok row, w)
  unfolding require_moderatable require_user find_by_id throw_if or_throw ◌>>=◌ ◌>>◌ gets pure
      and_then throw
  require_moderatable-run id w row m e o = rw (m, e, o) refl

  saved-id : (row : User) (us : List User) → (or_else (find_row user_id row.id us) row).id ≡ row.id
  saved-id row us = elim (Option-cases (find_row user_id row.id us)) [
    | inl e ↦ rw e refl
    | inr (u, e) ↦ rw e (key-find_row user_id row.id us u e)
  ]

  ban-sessions :
      (actor : AuthViewer) (id : ℕ) (w : World) (row : User)
      → is_mongo_id env id ≡ true
      → find_row user_id id w.users ≡ some row
      → row.is_owner ≡ false
      → ((ban env actor id w).1.now ≡ w.now)
        × ((ban env actor id w).1.sessions ≡ delete_all_sessions w.now row.id w.sessions)
  unfolding ban ban_account go_offline forget_auth_viewer revoke_all update_user find_by_id
      announce_ban log emit fresh_id when ◌>>=◌ ◌>>◌ gets pure and_then modify
  ban-sessions actor id w row m e o =
      let run = require_moderatable-run id w row m e o in
      elim (Bool-cases (is_banned row.status)) [
        | inl b ↦
            rw (run, b) (refl, ap (λ u. delete_all_sessions w.now u w.sessions) (saved-id row _))
        | inr b ↦
            rw (run, b) (refl, ap (λ u. delete_all_sessions w.now u w.sessions) (saved-id row _))
      ]

  -- After a ban of someone other than an owner, the guard signs no request in as that user, whatever
  -- token and cookie it carries, where the sessions were indexed by user before.
  pub resolve-ban :
      (actor : AuthViewer) (id : ℕ) (w : World) (row : User) (c : Credentials) (session who : ℕ)
      (end : World)
      → is_mongo_id env id ≡ true
      → find_row user_id id w.users ≡ some row
      → row.is_owner ≡ false
      → IsIndexed w.now w.sessions
      → resolve env c (ban env actor id w).1 ≡ (ok (session, who), end)
      → who ≢ id
  resolve-ban actor id w row c session who end m e o indexed run =
      let (same, gone) = ban-sessions actor id w row m e o in
      let other =
        resolve-delete_all env w (ban env actor id w).1 row.id c session who end indexed same gone
          run in
      let at_id = key-find_row user_id id w.users row e in λ q. other (q ∙ sym at_id)
