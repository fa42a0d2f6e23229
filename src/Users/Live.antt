-- ===== src/Users/Live.antt =====
-- The set `online_users` against the presence keys (src/common/redis/redis.service.ts).
use chatwave_backend.Base.{
  ℕ, ◌≡◌, refl, ◌∙◌, Bool, true, false, ◌&&◌, not, List, [], ◌∷◌, ◌++◌, ◌==◌, filter, mem, arith,
  Bool-cases, Option-cases, inl, inr, ◌||◌, ==→eq, subst, ◌+◌,
}
use chatwave_backend.Schema.User.{Presence}
use chatwave_backend.World.State.{Presences}
use chatwave_backend.World.Ttl.{get, lookup-put, lookup-del}
use chatwave_backend.Auth.Sessions.{add_member, drop_member}
use chatwave_backend.Users.Presence.{
  live_presence, is_live_user, list_online, prune_online, set_live_presence, clear_live_presence,
  settle_presence, presence_ttl,
}

-- Everyone with a live presence key is in the set.
abbrev pub IsOnlineSet : ℕ → Presences → Type 0
IsOnlineSet now p = (user : ℕ) → is_live_user now p user ≡ true → mem user p.online ≡ true

mem-filter : (q : ℕ → Bool) (x : ℕ) (xs : List ℕ) → mem x (filter q xs) ≡ mem x xs && q x
mem-filter q x [] = refl
mem-filter q x (y ∷ ys) = elim (Bool-cases (q y)) [
  | inl t ↦ ground (arith, mem-filter q x ys)
  | inr f ↦ ground (arith, mem-filter q x ys)
]

-- The list that listOnlineUserIds returns has exactly the users with a live presence, where the set
-- has them all.
mem-list_online :
    (now user : ℕ) (p : Presences)
    → IsOnlineSet now p
    → mem user (list_online now p) ≡ is_live_user now p user
unfolding list_online
mem-list_online now user p h =
    let found = mem-filter (is_live_user now p) user p.online in
    found ∙ only (mem user p.online) (is_live_user now p user) (h user)
  where
    only : (b c : Bool) → (c ≡ true → b ≡ true) → b && c ≡ c
    only b c k = ground arith

mem-add_member :
    (u id : ℕ) (ids : List ℕ) → mem u ids || id == u ≡ true → mem u (add_member id ids) ≡ true
mem-add_member u id ids h = elim (Bool-cases (mem id ids)) [
  | inl t ↦ rw t (stays u id ids t h)
  | inr f ↦ rw f (snoc u id ids h)
]
  where
    stays :
        (u id : ℕ) (xs : List ℕ) → mem id xs ≡ true → mem u xs || id == u ≡ true → mem u xs ≡ true
    stays u id xs t h = elim (Bool-cases (id == u)) [
      | inl e ↦ let same = ==→eq id u e in subst (λ x. mem x xs ≡ true) same t
      | inr e ↦ ground arith
    ]

    snoc : (u id : ℕ) (xs : List ℕ) → mem u xs || id == u ≡ true → mem u (xs ++ id ∷ []) ≡ true
    snoc u id [] h = ground arith
    snoc u id (x ∷ xs) h = ground (arith, snoc u id xs)

mem-drop_member :
    (u id : ℕ) (ids : List ℕ)
    → id == u ≡ false
    → mem u ids ≡ true
    → mem u (drop_member id ids) ≡ true
mem-drop_member u id ids ne h = mem-filter (λ x. not (x == id)) u ids ∙ ground arith

module _ (now user : ℕ) (p : Presences) where
  set_live_presence-IsOnlineSet :
      (presence : Presence)
      → IsOnlineSet now p
      → IsOnlineSet now (set_live_presence now user presence p)
  unfolding set_live_presence is_live_user live_presence
  set_live_presence-IsOnlineSet presence h u live =
      mem-add_member u user p.online (elim (Bool-cases (user == u)) [
        | inl t ↦ ground arith
        | inr f ↦
            let at = lookup-put u user presence (now + presence_ttl) p.live in
            let there = h u (rw (at, f) at live) in ground arith
      ])

  clear_live_presence-IsOnlineSet : IsOnlineSet now p → IsOnlineSet now (clear_live_presence user p)
  unfolding clear_live_presence is_live_user live_presence
  clear_live_presence-IsOnlineSet h u live =
      let at = lookup-del u user p.live in
      elim (Bool-cases (user == u)) [
        | inl t ↦ absurd (ground arith)
        | inr f ↦ mem-drop_member u user p.online f (h u (rw (at, f) at live))
      ]

  settle_presence-IsOnlineSet : IsOnlineSet now p → IsOnlineSet now (settle_presence now user p)
  unfolding settle_presence is_live_user live_presence
  settle_presence-IsOnlineSet h = elim (Option-cases (get now user p.live)) [
    | inl t ↦ rw t (λ u live.
        mem-drop_member u user p.online
          (elim (Bool-cases (user == u)) [
            | inl e ↦ let same = ==→eq user u e in absurd (ground arith)
            | inr f ↦ f
          ])
          (h u live))
    | inr (v, f) ↦ rw f h
  ]

  prune_online-IsOnlineSet : IsOnlineSet now p → IsOnlineSet now (prune_online now p)
  unfolding prune_online is_live_user live_presence
  prune_online-IsOnlineSet h u live = mem-list_online now u p h ∙ live

-- Setting a presence, clearing one, reading one and listing the users keep everyone with a live
-- presence in the set.
pub IsOnlineSet-kept :
    (now user : ℕ) (presence : Presence) (p : Presences)
    → IsOnlineSet now p
    → IsOnlineSet now (set_live_presence now user presence p)
      × IsOnlineSet now (clear_live_presence user p)
      × IsOnlineSet now (settle_presence now user p)
      × IsOnlineSet now (prune_online now p)
IsOnlineSet-kept now user presence p h = (
  set_live_presence-IsOnlineSet now user p presence h,
  clear_live_presence-IsOnlineSet now user p h,
  settle_presence-IsOnlineSet now user p h,
  prune_online-IsOnlineSet now user p h,
)
