-- ===== src/Auth/Lifetime.antt =====
-- How long the cookie of a session signs in: `createSession` of src/common/redis/redis.service.ts before
-- `resolve` of src/auth/guards/session.guard.ts.
use chatwave_backend.Base.{
  ℕ, ◌+◌, ◌≡◌, refl, some, none, ltb, arith, if◌then◌else◌, Bool-cases, inl, inr,
}
use chatwave_backend.Env.{Env}
use chatwave_backend.Schema.Session.{SessionMeta}
use chatwave_backend.World.State.{
  World, ok, thrown, unauthorized, gets, pure, throw, or_throw, branch, and_then, ◌>>=◌,
}
use chatwave_backend.Auth.Service.{session_of}
use chatwave_backend.Auth.Guard.{resolve, resolve_cookie}
use chatwave_backend.Auth.Sessions.{create_session, get_session, new_record}

get_session-create_session :
    (env : Env) (now later id user : ℕ) (input : SessionMeta) (w : World)
    → get_session later id (create_session env now id user input w.sessions)
      ≡ (if ltb later (now + 604800000) then some (new_record env now user input) else none)
unfolding get_session create_session
get_session-create_session env now later id user input w = ground arith

-- The world in which a session has been created at `now`, at a later time.
abbrev pub signed_in_at : Env → (now later id user : ℕ) → SessionMeta → World → World
signed_in_at env now later id user input w = record w {
  now = later;
  sessions = create_session env now id user input w.sessions;
}

-- The cookie of a session that is created at `now`, and not used again, signs in as its user for
-- exactly seven days (604800000 ms), whatever other sessions there are; from then on the guard refuses
-- it.
pub resolve-create_session :
    (env : Env) (now later id user : ℕ) (input : SessionMeta) (w : World)
    → (resolve env
        (record { token = none; cookie = some id })
        (signed_in_at env now later id user input w)).0
      ≡ (if ltb later (now + 604800000)
          then ok (id, user)
          else thrown (unauthorized "Please sign in again"))
unfolding resolve resolve_cookie session_of new_record ◌>>=◌ and_then gets pure throw or_throw
    branch
resolve-create_session env now later id user input w =
    let found = get_session-create_session env now later id user input w in
    elim (Bool-cases (ltb later (now + 604800000))) [
      | inl t ↦ let at = rw t at found in rw (at, t) refl
      | inr f ↦ let at = rw f at found in rw (at, f) refl
    ]
