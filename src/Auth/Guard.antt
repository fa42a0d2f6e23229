-- ===== src/Auth/Guard.antt =====
-- `resolve` and `canActivate` of src/auth/guards/session.guard.ts.
use chatwave_backend.Base.{ℕ, Bool, false, Option, none, some, ◌==◌, is_none}
use chatwave_backend.Env.{Env}
use chatwave_backend.Schema.User.{AuthViewer}
use chatwave_backend.Schema.Session.{SessionRecord}
use chatwave_backend.World.State.{Action, pure, gets, ◌>>=◌, or_throw, branch, unauthorized}
use chatwave_backend.Users.Closing.{get_auth_viewer}
use chatwave_backend.Auth.Service.{session_of}

-- What a request carries: the access token of its header, and the cookie of the session.
pub record Credentials : Type 0 where
  pub token : Option ℕ
  pub cookie : Option ℕ

module _ (env : Env) where
  abbrev pub is_session_of : ℕ → Option SessionRecord → Bool
  is_session_of user none = false
  is_session_of user (some row) = row.user == user

  abbrev pub or_none : Option ℕ → Option (ℕ × ℕ)
  or_none none = none
  or_none (some token) = env.jwt_verify token

  unfoldable pub resolve_cookie : Option ℕ → Action (ℕ × ℕ)
  resolve_cookie cookie = do
    id ← or_throw cookie (unauthorized "Please sign in")
    row ← or_throw (← gets (session_of id)) (unauthorized "Please sign in again")
    pure (id, row.user)

  unfoldable pub resolve_token : ℕ → ℕ → Option ℕ → Action (ℕ × ℕ)
  resolve_token user session cookie = do
    found ← gets (session_of session)
    branch (is_session_of user found) (pure (session, user)) (resolve_cookie cookie)

  -- `resolve` of the guard: the session and the user
  unfoldable pub resolve : Credentials → Action (ℕ × ℕ)
  resolve credentials = branch (is_none credentials.token) (resolve_cookie credentials.cookie) do
    (user, session) ← or_throw (or_none credentials.token) (unauthorized "Please sign in again")
    resolve_token user session credentials.cookie

  -- `canActivate` of the guard: the session and the viewer of the request
  unfoldable pub authenticate : Credentials → Action (ℕ × AuthViewer)
  authenticate credentials = do
    (session, user) ← resolve credentials
    viewer ← or_throw (← get_auth_viewer env user) (unauthorized "Please sign in again")
    pure (session, viewer)
