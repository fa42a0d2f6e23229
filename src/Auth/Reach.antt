-- ===== src/Auth/Reach.antt =====
-- The writes that sign-in, the guard's requests, sign-out and time make to the sessions, in any order
-- (src/common/redis/redis.service.ts, src/auth/auth.service.ts).
use chatwave_backend.Base.{ℕ, ◌+◌, arith}
use chatwave_backend.Env.{Env}
use chatwave_backend.Schema.Session.{SessionMeta}
use chatwave_backend.World.State.{World}
use chatwave_backend.Auth.Index.{
  IsIndexed, IsIndexed-later, create_session-IsIndexed, refresh_session-IsIndexed,
  delete_session-IsIndexed, delete_all_sessions-IsIndexed,
}
use chatwave_backend.Auth.Revoked.{Holds}
use chatwave_backend.Auth.Service.{write_session, touch_session, revoke_one, revoke_all}

abbrev wait : ℕ → World → World
wait n w = record w { now = w.now + n }

-- One write; a session is refreshed for the user whom the guard found it to belong to.
pub data SessionStep (env : Env) : World → World → Type 0 where
  signed_in :
      (user : ℕ) (input : SessionMeta) (w : World)
      → SessionStep env w (write_session env w.next_id user input w)
  used : (id user : ℕ) (w : World) → Holds w id user → SessionStep env w (touch_session id user w)
  signed_out : (id user : ℕ) (w : World) → SessionStep env w (revoke_one id user w)
  signed_out_everywhere : (user : ℕ) (w : World) → SessionStep env w (revoke_all user w)
  waited : (n : ℕ) (w : World) → SessionStep env w (wait n w)

pub data Reaches (env : Env) : World → World → Type 0 where
  stay : (w : World) → Reaches env w w
  step :
      (w next after : World) → SessionStep env w next → Reaches env next after → Reaches env w after

module _ (env : Env) where
  SessionStep-IsIndexed :
      (w after : World)
      → SessionStep env w after
      → IsIndexed w.now w.sessions
      → IsIndexed after.now after.sessions
  unfolding write_session touch_session revoke_one revoke_all
  SessionStep-IsIndexed _ _ (SessionStep.signed_in user input w) h =
      create_session-IsIndexed env w.now w.next_id user input w.sessions h
  SessionStep-IsIndexed _ _ (SessionStep.used id user w held) h =
      refresh_session-IsIndexed w.now id user w.sessions held.row held.given held.owner h
  SessionStep-IsIndexed _ _ (SessionStep.signed_out id user w) h =
      delete_session-IsIndexed w.now id user w.sessions h
  SessionStep-IsIndexed _ _ (SessionStep.signed_out_everywhere user w) h =
      delete_all_sessions-IsIndexed w.now user w.sessions h
  SessionStep-IsIndexed _ _ (SessionStep.waited n w) h =
      IsIndexed-later w.now (w.now + n) w.sessions (omega arith) h

  -- Whatever signs in, is used, signs out or expires, every live session stays in the set of its
  -- user, which does not expire before it.
  pub Reaches-IsIndexed :
      (w after : World)
      → Reaches env w after
      → IsIndexed w.now w.sessions
      → IsIndexed after.now after.sessions
  Reaches-IsIndexed _ _ (Reaches.stay w) h = h
  Reaches-IsIndexed _ _ (Reaches.step w next after s r) h =
      Reaches-IsIndexed next after r (SessionStep-IsIndexed w next s h)
