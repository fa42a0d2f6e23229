-- ===== src/Users/Private.antt =====
-- What `toPublic` of src/users/users.service.ts tells of a user who hides when they were last seen.
use chatwave_backend.Base.{
  ℕ, Option, some, false, ◌≢◌, ==-false, map, ◌≡◌, refl, none, List, [], ◌∷◌, All, filter,
}
use chatwave_backend.Schema.User.{User, Presence, offline, AuthViewer}
use chatwave_backend.World.State.{World}
use chatwave_backend.Users.Profiles.{PublicUser, hides_seen, to_public, public_users, is_live}

-- Neither a presence nor a date.
abbrev pub IsBlank : PublicUser → Type 0
IsBlank p = (p.presence ≡ offline) × (p.last_seen_at ≡ none)

abbrev pub with_seen : Option ℕ → Presence → User → User
with_seen at p u = record u { last_seen_at = at; presence = p }

-- Where users have set showLastSeen to false and the viewer is none of them, their profiles are the same
-- in any two worlds, whatever the presence keys and whatever the rows say of their presence and when
-- they were last seen, and show neither a presence nor a date; so none of them is in a list of the
-- users who are online.
pub public_users-IsBlank :
    (viewer : AuthViewer) (us : List User) (at : Option ℕ) (p : Presence) (w v : World)
    → All (λ u. (viewer.id ≢ u.id) × (u.settings.show_last_seen ≡ some false)) us
    → (public_users viewer us w ≡ public_users viewer (map (with_seen at p) us) v)
      × All IsBlank (public_users viewer us w)
      × (filter (λ q. is_live q.presence) (public_users viewer us w) ≡ [])
unfolding public_users to_public hides_seen
public_users-IsBlank viewer [] at p w v h = (refl, tt, refl)
public_users-IsBlank viewer (u ∷ us) at p w v h =
    let (same, blank, no_one) = public_users-IsBlank viewer us at p w v h.1 in
    let other = ==-false viewer.id u.id h.0.0 in
    let hidden = h.0.1 in
    rw (other, hidden, same) (refl, ((refl, refl), rw (← same) blank), rw (← same) no_one)
