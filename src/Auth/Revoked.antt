-- ===== src/Auth/Revoked.antt =====
-- What is left of a user's sessions once src/auth/auth.service.ts, src/admin/admin.service.ts or
-- src/settings/settings.service.ts has deleted them all.
use chatwave_backend.Base.{
  ℕ, ◌≡◌, ◌≢◌, refl, ◌∙◌, subst, Option, none, some, inl, inr, Option-cases, Bool-cases, ==→eq,
  ◌==◌,
}
use chatwave_backend.Env.{Env}
use chatwave_backend.Schema.Session.{SessionRecord}
use chatwave_backend.World.State.{
  World, Result, ok, thrown, gets, pure, throw, or_throw, and_then, ◌>>=◌, ◌>>◌, modify, branch,
}
use chatwave_backend.World.Effects.{emit}
use chatwave_backend.Users.Accounts.{go_offline}
use chatwave_backend.Users.Store.{update_user}
use chatwave_backend.Auth.Sessions.{get_session, delete_all_sessions}
use chatwave_backend.Auth.Index.{IsIndexed, get_session-delete_all}
use chatwave_backend.Auth.Service.{session_of, logout_all, revoke_all}
use chatwave_backend.Auth.Guard.{Credentials}
use chatwave_backend.Auth.Guard.{resolve, resolve_cookie, resolve_token}

-- The session that Redis gives for an id is one of the user's.
pub record Holds (w : World) (id user : ℕ) : Type 0 where
  pub row : SessionRecord
  pub given : get_session w.now id w.sessions ≡ some row
  pub owner : row.user ≡ user

abbrev Resolved : World → Result (ℕ × ℕ) × World → Type 0
Resolved w (ok (session, user), after) = Holds w session user
Resolved w (thrown e, after) = Unit

module _ (env : Env) where
  resolve_cookie-Resolved :
      (w : World) (cookie : Option ℕ) → Resolved w (resolve_cookie env cookie w)
  unfolding resolve_cookie session_of or_throw ◌>>=◌ ◌>>◌ gets pure and_then throw
  resolve_cookie-Resolved w none = tt
  resolve_cookie-Resolved w (some id) = elim (Option-cases (get_session w.now id w.sessions)) [
    | inl e ↦ rw e tt
    | inr (row, e) ↦ rw e (record { row = row; given = e; owner = refl })
  ]

  resolve_token-Resolved :
      (w : World) (user session : ℕ) (cookie : Option ℕ)
      → Resolved w (resolve_token env user session cookie w)
  unfolding resolve_token session_of ◌>>=◌ gets and_then branch pure
  resolve_token-Resolved w user session cookie =
      elim (Option-cases (get_session w.now session w.sessions)) [
        | inl e ↦ rw e (resolve_cookie-Resolved w cookie)
        | inr (row, e) ↦ elim (Bool-cases (row.user == user)) [
          | inl t ↦ rw (e, t) (record { row = row; given = e; owner = ==→eq row.user user t })
          | inr f ↦ rw (e, f) (resolve_cookie-Resolved w cookie)
        ]
      ]

  resolve-Resolved : (w : World) (c : Credentials) → Resolved w (resolve env c w)
  unfolding resolve ◌>>=◌ branch and_then or_throw pure throw
  resolve-Resolved w c = elim (Option-cases c.token) [
    | inl e ↦ rw e (resolve_cookie-Resolved w c.cookie)
    | inr (token, e) ↦ elim (Option-cases (env.jwt_verify token)) [
      | inl n ↦ rw (e, n) tt
      | inr ((user, session), n) ↦ rw (e, n) (resolve_token-Resolved w user session c.cookie)
    ]
  ]

  -- What a world has where the sessions of a user were deleted in it.
  pub resolve-delete_all :
      (w after : World) (user : ℕ) (c : Credentials) (session who : ℕ) (end : World)
      → IsIndexed w.now w.sessions
      → after.now ≡ w.now
      → after.sessions ≡ delete_all_sessions w.now user w.sessions
      → resolve env c after ≡ (ok (session, who), end)
      → who ≢ user
  resolve-delete_all w after user c session who end indexed same gone run =
      let held : Holds after session who = subst (Resolved after) run (resolve-Resolved after c) in
      let given = held.given in
      let owner = held.owner in
      let other =
        get_session-delete_all w.now user session w.sessions indexed held.row
          (rw (same, gone) at given) in
      λ e. other (owner ∙ e)

  -- After a user has signed out everywhere, the guard signs no request in as that user, whatever
  -- token and cookie it carries, where the sessions were indexed by user before.
  pub resolve-logout_all :
      (w : World) (user : ℕ) (c : Credentials) (session who : ℕ) (end : World)
      → IsIndexed w.now w.sessions
      → resolve env c (logout_all env user w).1 ≡ (ok (session, who), end)
      → who ≢ user
  unfolding logout_all go_offline revoke_all ◌>>=◌ ◌>>◌ modify and_then emit update_user
  resolve-logout_all w user c session who end indexed run =
      resolve-delete_all w (logout_all env user w).1 user c session who end indexed refl refl run
