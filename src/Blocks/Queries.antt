-- ===== src/Blocks/Queries.antt =====
-- The reads of src/blocks/blocks.service.ts on which the other services call.
use chatwave_backend.Base.{ℕ, String, Bool, ◌&&◌, ◌||◌, not, List, any, ◌==◌}
use chatwave_backend.Env.{Env, is_mongo_id}
use chatwave_backend.Schema.Block.{Block}
use chatwave_backend.World.State.{Action, gets, ◌>>=◌, throw_if, forbidden}

abbrev pub message_blocked : String
message_blocked = "You can't message this person. One of you has blocked the other."

abbrev pub is_pair : ℕ → ℕ → Block → Bool
is_pair blocker blocked row = row.blocker == blocker && row.blocked == blocked

module _ (env : Env) where
  -- `isBlocked(a, b)` on the rows of the collection
  unfoldable pub is_blocked : List Block → ℕ → ℕ → Bool
  is_blocked rows a b =
      not (a == b)
      && is_mongo_id env a
      && is_mongo_id env b
      && any (λ row. is_pair a b row || is_pair b a row) rows

  unfoldable pub is_blocked_by : List Block → ℕ → ℕ → Bool
  is_blocked_by rows blocker blocked =
      is_mongo_id env blocker && is_mongo_id env blocked && any (is_pair blocker blocked) rows

  unfoldable pub assert_not_blocked : ℕ → ℕ → String → Action (Unit {0})
  assert_not_blocked a b error = do
    throw_if (← gets (λ w. is_blocked w.blocks a b)) (forbidden error)
