-- ===== src/Calls/Run.antt =====
-- The call handlers of src/calls/calls.service.ts as the requests that reach the server, one after the
-- other: each handler runs to its end before the next, and time passes between them.
use chatwave_backend.Base.{ℕ, ◌+◌, ◌≡◌, refl, arith, Option, some, List, [], ◌∷◌, false}
use chatwave_backend.Base.Rows.{find_row}
use chatwave_backend.Env.{Env}
use chatwave_backend.Schema.User.{AuthViewer}
use chatwave_backend.Schema.Call.{Call, CallType, IcePath}
use chatwave_backend.World.State.{World}
use chatwave_backend.World.Effects.{call_id}
use chatwave_backend.World.Hoare.{keeps_of}
use chatwave_backend.Calls.Rows.{is_live}
use chatwave_backend.Calls.Service.{
  hangup_all_for_user, expire_rings, start, accept, decline, hang_up, mark_joined,
}
use chatwave_backend.Calls.Lifecycle.{IsFrozen}
use chatwave_backend.Calls.Tracks.{IsGood, Tracks, Tracks-Framed, Evolves, Evolves-refl}
use chatwave_backend.Calls.Handlers.{
  hangup_all-Hoare, expire_rings-Hoare, accept-Hoare, decline-Hoare, hang_up-Hoare,
  mark_joined-Hoare,
}
use chatwave_backend.Calls.Start.{start-Hoare}

pub data Request : Type 0 where
  start_call : (viewer : AuthViewer) (conversation : ℕ) (type : CallType) → Request
  accept_call : (viewer : AuthViewer) (call : ℕ) → Request
  decline_call : (viewer : AuthViewer) (call : ℕ) → Request
  end_call : (viewer : AuthViewer) (call : ℕ) (ice : Option IcePath) → Request
  join_room : (call user : ℕ) → Request
  disconnect : (user : ℕ) → Request  -- the user's last socket is gone
  sweep : Request  -- the ring timer
  wait : (ms : ℕ) → Request

abbrev elapse : ℕ → World → World
elapse ms w = record w { now = w.now + ms }

-- The world after a request, also where its handler throws.
unfoldable pub handle : Env → Request → World → World
handle env (start_call viewer conversation type) w = (start env viewer conversation type w).1
handle env (accept_call viewer call) w = (accept env viewer call w).1
handle env (decline_call viewer call) w = (decline env viewer call w).1
handle env (end_call viewer call ice) w = (hang_up env viewer call ice w).1
handle env (join_room call user) w = (mark_joined env call user w).1
handle env (disconnect user) w = (hangup_all_for_user env user w).1
handle env sweep w = (expire_rings env w).1
handle env (wait ms) w = elapse ms w

unfoldable pub run : Env → List Request → World → World
run env [] w = w
run env (r ∷ rs) w = run env rs (handle env r w)

module _ (env : Env) where
  handle-Tracks : (v : World) (r : Request) (w : World) → Tracks v w → Tracks v (handle env r w)
  unfolding handle
  handle-Tracks v (start_call viewer conversation type) w t =
      keeps_of (Tracks v) (start-Hoare env v viewer conversation type) w t tt
  handle-Tracks v (accept_call viewer call) w t =
      keeps_of (Tracks v) (accept-Hoare env v viewer call) w t tt
  handle-Tracks v (decline_call viewer call) w t =
      keeps_of (Tracks v) (decline-Hoare env v viewer call) w t tt
  handle-Tracks v (end_call viewer call ice) w t =
      keeps_of (Tracks v) (hang_up-Hoare env v viewer call ice) w t tt
  handle-Tracks v (join_room call user) w t =
      keeps_of (Tracks v) (mark_joined-Hoare env v call user) w t tt
  handle-Tracks v (disconnect user) w t = keeps_of (Tracks v) (hangup_all-Hoare env v user) w t tt
  handle-Tracks v sweep w t = keeps_of (Tracks v) (expire_rings-Hoare env v) w t tt
  handle-Tracks v (wait ms) w t = (Tracks-Framed v).apply w (elapse ms w) refl (omega arith) refl t

  run-Tracks : (v : World) (rs : List Request) (w : World) → Tracks v w → Tracks v (run env rs w)
  unfolding run
  run-Tracks v [] w t = t
  run-Tracks v (r ∷ rs) w t = run-Tracks v rs (handle env r w) (handle-Tracks v r w t)

  tracks : (rs : List Request) (w : World) → IsGood w → Tracks w (run env rs w)
  tracks rs w g = run-Tracks w rs w (record { good = g; evolves = Evolves-refl w.calls })

-- From a world whose calls are good, any list of requests leads to a world whose calls are good: ids
-- are unique and below the next id, every row's dates, duration and seats fit its status, and no user
-- has a seat with leftAt null in two live calls. A seat with a leftAt is not counted: a callee who declined
-- a group call and accepted it later has such a seat, and may be in another call besides.
pub run-IsGood : (env : Env) (rs : List Request) (w : World) → IsGood w → IsGood (run env rs w)
run-IsGood env rs w g = (tracks env rs w g).good

-- From a world whose calls are good, whatever requests come, a stored call stays stored under its id
-- and its later row is reached from the earlier one along the diagram: the conversation, the caller and
-- the seats' users stay, the status follows the diagram, and no one gets a seat back.
pub run-Evolves :
    (env : Env) (rs : List Request) (w : World) → IsGood w → Evolves w.calls (run env rs w).calls
run-Evolves env rs w g = (tracks env rs w g).evolves

-- A call that was concluded in a good world has, after any list of requests, the status, end, duration
-- and answer with which it was concluded.
pub run-IsFrozen :
    (env : Env) (rs : List Request) (w : World) (k : ℕ) (r : Call)
    → IsGood w
    → find_row call_id k w.calls ≡ some r
    → is_live r.status ≡ false
    → (s : Call) × (find_row call_id k (run env rs w).calls ≡ some s) × IsFrozen r s
run-IsFrozen env rs w k r g e dead =
    let (s, es, st) = run-Evolves env rs w g k r e in (s, es, st.frozen dead)
