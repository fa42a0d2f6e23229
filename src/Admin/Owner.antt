-- ===== src/Admin/Owner.antt =====
-- The owner's account is out of reach of the moderation in src/admin/admin.service.ts.
use chatwave_backend.Base.{
  ℕ, ◌≡◌, ◌⊎◌, ◌≢◌, refl, sym, subst, ◌∙◌, true, false, Option, some, is_some, Option-cases,
  Bool-cases, inl, inr, ==-false, arith,
}
use chatwave_backend.Base.Text.{Text}
use chatwave_backend.Base.Rows.{find_row, key-find_row}
use chatwave_backend.Env.{Env, is_mongo_id}
use chatwave_backend.Schema.User.{User, AuthViewer}
use chatwave_backend.Schema.Notification.{AuditKind}
use chatwave_backend.World.State.{
  World, Emit, Action, Exception, on_some, ok, thrown, gets, modify, pure, throw, throw_if,
  or_throw, and_then, ◌>>=◌, ◌>>◌, bad_request, not_found,
}
use chatwave_backend.World.Effects.{user_id, emit, fresh_id}
use chatwave_backend.World.Keeps.{
  Keeps, pure-Keeps, gets-Keeps, modify-Keeps, bind-Keeps, seq-Keeps, read-Keeps, when-Keeps,
  throw_if-Keeps, branch-Keeps,
}
use chatwave_backend.Audit.{log}
use chatwave_backend.Users.{find_by_id}
use chatwave_backend.Users.Accounts.{go_offline}
use chatwave_backend.Users.Closing.{
  ban_account, unban_account, admin_delete, delete_user, forget_auth_viewer,
}
use chatwave_backend.Users.Store.{update_user}
use chatwave_backend.Users.Viewers.{find_row-update_user}
use chatwave_backend.Auth.Service.{revoke_all}
use chatwave_backend.Admin.Service.{
  require_user, require_moderatable, announce_ban, ban, lift_ban, unban, erase_user, remove_user,
}

-- The user is stored as this row.
abbrev pub IsRow : User → World → Type 0
IsRow owner w = find_row user_id owner.id w.users ≡ some owner

require_moderatable-cases :
    (env : Env) (id : ℕ) (w : World)
    → ((e : Exception) × (require_moderatable env id w ≡ (thrown e, w)))
      ⊎ ((row : User) × (require_moderatable env id w ≡ (ok row, w))
          × (find_row user_id id w.users ≡ some row)
          × (row.is_owner ≡ false))
unfolding require_moderatable require_user find_by_id throw_if or_throw ◌>>=◌ ◌>>◌ gets pure
    and_then throw
require_moderatable-cases env id w = elim (Bool-cases (is_mongo_id env id)) [
  | inr f ↦ inl (not_found "User not found", rw f refl)
  | inl m ↦ elim (Option-cases (find_row user_id id w.users)) [
    | inl n ↦ inl (not_found "User not found", rw (m, n) refl)
    | inr (row, e) ↦ elim (Bool-cases row.is_owner) [
      | inl t ↦ inl (bad_request "Cannot moderate the owner account", rw (m, e, t) refl)
      | inr f ↦ inr (row, rw (m, e, f) refl, e, f)
    ]
  ]
]

module _ (owner : User) (is_owner : owner.is_owner ≡ true) where
  -- A row that the moderation lets pass is not the owner's.
  not_owner :
      (id : ℕ) (row : User) (w : World)
      → IsRow owner w
      → find_row user_id id w.users ≡ some row
      → row.is_owner ≡ false
      → row.id ≢ owner.id
  not_owner id row w h e f same =
      let here = key-find_row user_id id w.users row e in
      let found : find_row user_id owner.id w.users ≡ some row =
        subst (λ j. find_row user_id j w.users ≡ some row) (sym here ∙ same) e in
      let is : some owner ≡ some row = sym h ∙ found in
      let eq : owner ≡ row = ground arith in
      let no : row.is_owner ≡ true = subst (λ r. r.is_owner ≡ true) eq is_owner in
      absurd (ground arith)

  emit-IsRow : (e : Emit) → Keeps (IsRow owner) (emit e)
  unfolding emit
  emit-IsRow e = modify-Keeps _ _ (λ w h. h)

  log-IsRow :
      (user : ℕ) (actor : Option ℕ) (kind : AuditKind) (title detail : Text)
      → Keeps (IsRow owner) (log user actor kind title detail)
  unfolding log fresh_id ◌>>=◌ ◌>>◌ and_then gets modify
  log-IsRow user actor kind title detail = record { apply = λ w h. h }

  revoke-IsRow : (user : ℕ) → Keeps (IsRow owner) (modify (revoke_all user))
  unfolding revoke_all
  revoke-IsRow user = modify-Keeps _ _ (λ w h. h)

  module _ (env : Env) (id : ℕ) (ne : id ≢ owner.id) where
    update-IsRow :
        (f : World → User → User)
        → ((w : World) (u : User) → (f w u).id ≡ u.id)
        → Keeps (IsRow owner) (modify (λ w. update_user id (f w) w))
    unfolding update_user
    update-IsRow f same = modify-Keeps _ _ (λ w h.
        find_row-update_user env owner.id id (f w) w.users (same w) (==-false id owner.id ne) ∙ h)

    go_offline-IsRow : Keeps (IsRow owner) (go_offline env id)
    unfolding go_offline
    go_offline-IsRow = seq-Keeps _ (modify-Keeps _ _ (λ w h. h)) (update-IsRow _ (λ w u. refl))

    forget-IsRow : Keeps (IsRow owner) (forget_auth_viewer env id)
    unfolding forget_auth_viewer
    forget-IsRow = modify-Keeps _ _ (λ w h. h)

    ban_account-IsRow : Keeps (IsRow owner) (ban_account env id)
    unfolding ban_account find_by_id
    ban_account-IsRow =
        seq-Keeps _ go_offline-IsRow
          (seq-Keeps _ forget-IsRow (seq-Keeps _ (update-IsRow _ (λ w u. refl)) (gets-Keeps _ _)))

    unban_account-IsRow : Keeps (IsRow owner) (unban_account env id)
    unfolding unban_account find_by_id
    unban_account-IsRow =
        seq-Keeps _ forget-IsRow (seq-Keeps _ (update-IsRow _ (λ w u. refl)) (gets-Keeps _ _))

  module _ (env : Env) where
    delete_user-IsRow : (row : User) → row.id ≢ owner.id → Keeps (IsRow owner) (delete_user env row)
    unfolding delete_user
    delete_user-IsRow row ne = seq-Keeps _ (go_offline-IsRow env row.id ne) (
        seq-Keeps _ (forget-IsRow env row.id ne) (
          bind-Keeps _ (gets-Keeps _ _)
            (λ now. seq-Keeps _ (update-IsRow env row.id ne _ (λ w u. refl)) (pure-Keeps _ _))))

    admin_delete-IsRow : (id : ℕ) → id ≢ owner.id → Keeps (IsRow owner) (admin_delete env id)
    unfolding admin_delete find_by_id on_some gets
    admin_delete-IsRow id ne = read-Keeps _ (λ w h.
        let same : (row : User) → find_row user_id id w.users ≡ some row → row.id ≢ owner.id =
          λ row e eq. ne (sym (key-find_row user_id id w.users row e) ∙ eq) in
        inr (
          find_row user_id id w.users,
          refl,
          elim (Option-cases (find_row user_id id w.users)) [
            | inl n ↦ rw n (pure-Keeps _ _)
            | inr (row, e) ↦ rw e (
                branch-Keeps _ (is_some row.deleted_at) (pure-Keeps _ _)
                  (delete_user-IsRow row (same row e)))
          ],
        ))

    -- What follows the guard of the moderation has the row of another account.
    moderatable-Keeps :
        (id : ℕ) {A : Type 0} {f : User → Action A}
        → ((row : User) → row.id ≢ owner.id → Keeps (IsRow owner) (f row))
        → Keeps (IsRow owner) (require_moderatable env id >>= f)
    moderatable-Keeps id h = read-Keeps _ (λ w at. elim (require_moderatable-cases env id w) [
      | inl t ↦ inl t
      | inr (row, e, found, f) ↦ inr (row, e, h row (not_owner id row w at found f))
    ])

  -- Whoever asks to ban, unban or delete whichever account, and however the request ends: the row of an
  -- owner stays as it is.
  pub moderation-IsRow :
      (env : Env) (actor : AuthViewer) (id : ℕ)
      → Keeps (IsRow owner) (ban env actor id)
        × Keeps (IsRow owner) (unban env actor id)
        × Keeps (IsRow owner) (remove_user env actor id)
  unfolding ban unban remove_user announce_ban lift_ban erase_user
  moderation-IsRow env actor id = (
    moderatable-Keeps env id (λ row ne. bind-Keeps _ (ban_account-IsRow env row.id ne) (λ found.
        seq-Keeps _ (revoke-IsRow _) (
          seq-Keeps _ (emit-IsRow _) (
            seq-Keeps _ (when-Keeps _ _ (seq-Keeps _ (log-IsRow _ _ _ _ _) (emit-IsRow _)))
              (pure-Keeps _ _))))),
    moderatable-Keeps env id (λ row ne. seq-Keeps _ (throw_if-Keeps _ _ _) (
        branch-Keeps _ _ (pure-Keeps _ _) (
          bind-Keeps _ (unban_account-IsRow env row.id ne)
            (λ found. seq-Keeps _ (log-IsRow _ _ _ _ _) (pure-Keeps _ _))))),
    moderatable-Keeps env id (λ row ne. branch-Keeps _ _ (pure-Keeps _ _) (
        seq-Keeps _ (admin_delete-IsRow env row.id ne)
          (seq-Keeps _ (revoke-IsRow _) (seq-Keeps _ (emit-IsRow _) (log-IsRow _ _ _ _ _))))),
  )
