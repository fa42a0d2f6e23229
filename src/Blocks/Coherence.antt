-- ===== src/Blocks/Coherence.antt =====
-- What src/blocks/blocks.service.ts answers about blocked pairs, and that its Redis cache agrees.
use chatwave_backend.Base.{
  ℕ, ◌≡◌, ◌≢◌, refl, sym, ap, ◌∙◌, Bool, true, false, ◌&&◌, ◌||◌, not, some, List, [], ◌∷◌, ◌++◌,
  map, filter, any, mem, dedup, dedup_from, ◌==◌, ==→eq, arith, All, All-filter, Bool-cases,
  Option-cases, inl, inr,
}
use chatwave_backend.Env.{Env, is_mongo_id}
use chatwave_backend.Schema.Block.{Block}
use chatwave_backend.World.State.{World, RestrictedKey}
use chatwave_backend.Blocks.Queries.{is_pair, is_blocked, is_blocked_by}
use chatwave_backend.Blocks.Restricted.{
  other_side, restricted_from, is_fresh_key, cached_ids, cache_ids, bust_restricted,
  lookup_restricted,
}
use chatwave_backend.Blocks.Service.{create_block, delete_block}

mem-dedup_from :
    (v : ℕ) (seen xs : List ℕ) → mem v seen || mem v (dedup_from seen xs) ≡ mem v seen || mem v xs
mem-dedup_from v seen [] = refl
mem-dedup_from v seen (x ∷ xs) = ground (
  arith,
  mem-dedup_from v seen xs,
  mem-dedup_from v (x ∷ seen) xs,
  λ (e : x == v ≡ true). ap (λ y. mem y seen) (==→eq x v e),
)

touches : ℕ → Block → Bool
touches user r = r.blocker == user || r.blocked == user

mem-sides :
    (user v : ℕ) (rows : List Block)
    → user ≢ v
    → mem v (map (other_side user) (filter (λ r. r.blocker == user || r.blocked == user) rows))
      ≡ any (λ row. is_pair user v row || is_pair v user row) rows
mem-sides user v [] ne = refl
mem-sides user v (r ∷ rows) ne = ground (arith, mem-sides user v rows)

any-swap :
    (a b : ℕ) (rows : List Block)
    → any (λ row. is_pair a b row || is_pair b a row) rows
      ≡ any (λ row. is_pair b a row || is_pair a b row) rows
any-swap a b [] = refl
any-swap a b (r ∷ rows) = ground (arith, any-swap a b rows)

any-split :
    (a b : ℕ) (rows : List Block)
    → any (λ row. is_pair a b row || is_pair b a row) rows
      ≡ any (is_pair a b) rows || any (is_pair b a) rows
any-split a b [] = refl
any-split a b (r ∷ rows) = ground (arith, any-split a b rows)

-- For two different users with ObjectIds as ids: the restricted ids of the one contain the other exactly
-- where `isBlocked` holds, `isBlocked` gives the same answer for both of them, and it holds where
-- `isBlockedBy` does in one of the two directions.
pub restricted_from-is_blocked :
    (env : Env) (rows : List Block) (user v : ℕ)
    → is_mongo_id env user ≡ true
    → is_mongo_id env v ≡ true
    → user ≢ v
    → (mem v (restricted_from user rows) ≡ is_blocked env rows user v)
      × (is_blocked env rows user v ≡ is_blocked env rows v user)
      × (is_blocked env rows user v
          ≡ is_blocked_by env rows user v || is_blocked_by env rows v user)
unfolding restricted_from is_blocked is_blocked_by
restricted_from-is_blocked env rows user v mu mv ne =
    let sides = mem-sides user v rows ne in
    let once =
      mem-dedup_from v []
        (map (other_side user) (filter (λ r. r.blocker == user || r.blocked == user) rows)) in
    let swap = any-swap user v rows in
    let split = any-split user v rows in
    let apart : user == v ≡ false = ground arith in
    let apart' : v == user ≡ false = ground arith in
    (rw (apart, mu, mv) (once ∙ sides), rw (apart, apart', mu, mv) swap, rw (apart, mu, mv) split)

-- Every list that Redis holds is what the query finds now.
abbrev pub IsCoherent : World → Type 0
IsCoherent w = All (λ k. k.ids ≡ restricted_from k.user w.blocks) w.restricted

filter-snoc :
    (p : Block → Bool) (rows : List Block) (r : Block)
    → p r ≡ false
    → filter p (rows ++ r ∷ []) ≡ filter p rows
filter-snoc p [] r e = rw e
filter-snoc p (x ∷ rows) r e = elim (Bool-cases (p x)) [
  | inl t ↦ rw (t, filter-snoc p rows r e)
  | inr t ↦ rw (t, filter-snoc p rows r e)
]

filter-filter :
    (p q : Block → Bool) (rows : List Block)
    → ((r : Block) → p r ≡ true → q r ≡ true)
    → filter p (filter q rows) ≡ filter p rows
filter-filter p q [] h = refl
filter-filter p q (x ∷ rows) h = ground (arith, h x, filter-filter p q rows h)

-- A bust that follows a change of the rows of two users keeps the cache coherent.
bust-coherent :
    (a b : ℕ) (rows rows' : List Block) (ks : List RestrictedKey)
    → ((user : ℕ) → a ≢ user → b ≢ user → restricted_from user rows' ≡ restricted_from user rows)
    → All (λ k. k.ids ≡ restricted_from k.user rows) ks
    → All
        (λ k. k.ids ≡ restricted_from k.user rows')
        (filter (λ k. not (k.user == a) && not (k.user == b)) ks)
bust-coherent a b rows rows' [] same h = tt
bust-coherent a b rows rows' (k ∷ ks) same h =
    let rest = bust-coherent a b rows rows' ks same h.1 in
    elim (Bool-cases (not (k.user == a) && not (k.user == b))) [
      | inl t ↦
          rw t (
            h.0 ∙ sym (same k.user (λ e. absurd (ground arith)) (λ e. absurd (ground arith))),
            rest,
          )
      | inr t ↦ rw t rest
    ]

create_block-IsCoherent : (a b : ℕ) (w : World) → IsCoherent w → IsCoherent (create_block a b w)
unfolding create_block bust_restricted restricted_from
create_block-IsCoherent a b w h =
    bust-coherent a b w.blocks (w.blocks ++ record { blocker = a; blocked = b } ∷ []) w.restricted
      (λ user na nb.
        ap (λ rs. dedup (map (other_side user) rs))
          (filter-snoc (λ r. r.blocker == user || r.blocked == user) w.blocks
            (record { blocker = a; blocked = b }) (ground arith)))
      h

delete_block-IsCoherent : (a b : ℕ) (w : World) → IsCoherent w → IsCoherent (delete_block a b w)
unfolding delete_block bust_restricted restricted_from
delete_block-IsCoherent a b w h =
    bust-coherent a b w.blocks (filter (λ r. not (is_pair a b r)) w.blocks) w.restricted
      (λ user na nb.
        ap (λ rs. dedup (map (other_side user) rs))
          (filter-filter (λ r. r.blocker == user || r.blocked == user) (λ r. not (is_pair a b r))
            w.blocks (λ r e. ground arith)))
      h

cached_ids-coherent :
    (now user : ℕ) (rows : List Block) (ks : List RestrictedKey) (ids : List ℕ)
    → All (λ k. k.ids ≡ restricted_from k.user rows) ks
    → cached_ids now user ks ≡ some ids
    → ids ≡ restricted_from user rows
unfolding cached_ids
cached_ids-coherent now user rows [] ids h e = cc
cached_ids-coherent now user rows (k ∷ ks) ids h e = elim (Bool-cases (is_fresh_key now user k)) [
  | inl t ↦
      let at_user : k.user ≡ user = ground arith in
      let same : k.ids ≡ ids = ground arith in
      sym same ∙ h.0 ∙ ap (λ u. restricted_from u rows) at_user
  | inr t ↦ cached_ids-coherent now user rows ks ids h.1 (ground arith)
]

cache_ids-IsCoherent :
    (user : ℕ) (w : World)
    → IsCoherent w
    → IsCoherent (cache_ids user (restricted_from user w.blocks) w)
unfolding cache_ids
cache_ids-IsCoherent user w h = (
  refl,
  All-filter (λ k. k.ids ≡ restricted_from k.user w.blocks) (λ k. not (k.user == user)) w.restricted
      h,
)

-- With a coherent cache, `restrictedIds` answers what the query would find, from the cache or not, and
-- the cache stays coherent.
pub lookup_restricted-lem :
    (user : ℕ) (w : World)
    → IsCoherent w
    → ((lookup_restricted user w).0 ≡ restricted_from user w.blocks)
      × IsCoherent (lookup_restricted user w).1
unfolding lookup_restricted
lookup_restricted-lem user w h = elim (Option-cases (cached_ids w.now user w.restricted)) [
  | inl e ↦ rw e (refl, cache_ids-IsCoherent user w h)
  | inr (ids, e) ↦ rw e (cached_ids-coherent w.now user w.blocks w.restricted ids h e, h)
]

-- Blocking and unblocking keep the cache coherent, and so does a look-up.
pub IsCoherent-kept :
    (a b user : ℕ) (w : World)
    → IsCoherent w
    → IsCoherent (create_block a b w)
      × IsCoherent (delete_block a b w)
      × IsCoherent (lookup_restricted user w).1
IsCoherent-kept a b user w h = (
  create_block-IsCoherent a b w h,
  delete_block-IsCoherent a b w h,
  (lookup_restricted-lem user w h).1,
)
