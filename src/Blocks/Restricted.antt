-- ===== src/Blocks/Restricted.antt =====
-- `restrictedIds` of src/blocks/blocks.service.ts and its cache in Redis. The cached JSON is the list
-- of ids itself, and always parses.
use chatwave_backend.Base.{
  ℕ, ◌+◌, Bool, ◌&&◌, ◌||◌, not, Option, none, some, List, [], ◌∷◌, map, ltb, ◌==◌, if◌then◌else◌,
  filter, find, dedup,
}
use chatwave_backend.Env.{Env, is_mongo_id}
use chatwave_backend.Schema.Block.{Block}
use chatwave_backend.World.State.{
  World, RestrictedKey, Action, pure, gets, modify, ◌>>=◌, ◌>>◌, branch,
}

abbrev pub other_side : ℕ → Block → ℕ
other_side user row = if row.blocker == user then row.blocked else row.blocker

-- The ids that the query finds: everyone whom the user blocks or who blocks the user.
unfoldable pub restricted_from : ℕ → List Block → List ℕ
restricted_from user rows =
    dedup (map (other_side user) (filter (λ r. r.blocker == user || r.blocked == user) rows))

abbrev pub is_fresh_key : ℕ → ℕ → RestrictedKey → Bool
is_fresh_key now user k = k.user == user && ltb now k.expires_at

unfoldable pub cached_ids : ℕ → ℕ → List RestrictedKey → Option (List ℕ)
cached_ids now user ks = elim (find (is_fresh_key now user) ks) [
  | none ↦ none
  | some k ↦ some k.ids
]

-- `cacheSet` with a time to live of 30 seconds
unfoldable pub cache_ids : ℕ → List ℕ → World → World
cache_ids user ids w = record w {
  restricted =
      record { user = user; ids = ids; expires_at = w.now + 30000 }
      ∷ filter (λ k. not (k.user == user)) w.restricted;
}

-- `bustRestricted`
unfoldable pub bust_restricted : ℕ → ℕ → World → World
bust_restricted a b w = record w {
  restricted = filter (λ k. not (k.user == a) && not (k.user == b)) w.restricted;
}

abbrev pub answer_or_fill : Option (List ℕ) → ℕ → World → List ℕ × World
answer_or_fill (some ids) user w = (ids, w)
answer_or_fill none user w = let ids = restricted_from user w.blocks in (ids, cache_ids user ids w)

unfoldable pub lookup_restricted : ℕ → World → List ℕ × World
lookup_restricted user w = answer_or_fill (cached_ids w.now user w.restricted) user w

module _ (env : Env) where
  unfoldable pub restricted_ids : ℕ → Action (List ℕ)
  restricted_ids user = branch (not (is_mongo_id env user)) (pure []) do
    found ← gets (λ w. (lookup_restricted user w).0)
    modify (λ w. (lookup_restricted user w).1)
    pure found
