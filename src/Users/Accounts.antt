-- ===== src/Users/Accounts.antt =====
-- The profile and the presence of a user (src/users/users.service.ts). A write of a loaded row
-- changes the fields that the handler set and no other, as mongoose does.
use chatwave_backend.Base.{ℕ, Bool, false, ◌&&◌, not, Option, none, some, List, [], ◌∷◌, or_else}
use chatwave_backend.Base.Text.{Text, text_eq}
use chatwave_backend.Env.{Env}
use chatwave_backend.Schema.User.{User, Presence, online, offline}
use chatwave_backend.World.State.{
  World, Emit, Action, pure, gets, modify, ◌>>=◌, ◌>>◌, throw_if, when, conflict,
}
use chatwave_backend.World.Effects.{emit}
use chatwave_backend.Users.{initials_from_name}
use chatwave_backend.Users.Presence.{
  set_live_presence, clear_live_presence, get_live_presence, is_claim_free, claim, or_offline,
}
use chatwave_backend.Users.Store.{update_user, other_has_username, save_user, require_active}

-- The argument of `updateMe`; a field that is left out is `none`.
pub record ProfilePatch : Type 0 where
  pub name : Option Text
  pub username : Option Text
  pub role : Option Text
  pub location : Option Text
  pub tone : Option Text

-- `if (dto.x)`: a field that is missing or the empty string is passed over.
abbrev pub filled : Option Text → Option Text
filled none = none
filled (some []) = none
filled (some (c ∷ s)) = some (c ∷ s)

abbrev taken_by_other : User → Option Text → List User → Bool
taken_by_other row none users = false
taken_by_other row (some name) users =
    not (text_eq name row.username) && other_has_username row.id name users

module _ (env : Env) where
  abbrev named : Option Text → User → User
  named none row = row
  named (some name) row = record row { name = name; initials = initials_from_name env name }

  unfoldable pub patch_profile : ProfilePatch → User → User
  patch_profile dto row = record (named (filled dto.name) row) {
    username = or_else (filled dto.username) row.username;
    role = or_else dto.role row.role;
    location = or_else dto.location row.location;
    tone = or_else (filled dto.tone) row.tone;
  }

  unfoldable pub update_me : ℕ → ProfilePatch → Action User
  update_me id dto = do
    row ← require_active id
    taken ← gets (λ w. taken_by_other row (filled dto.username) w.users)
    throw_if taken (conflict "That username is already taken")
    save_user (patch_profile dto) row

  abbrev emit_asset : Option Text → Action (Unit {0})
  emit_asset none = pure tt
  emit_asset (some asset) = emit (Emit.asset_deleted asset)

  unfoldable pub delete_photo : ℕ → Action User
  delete_photo id = do
    row ← require_active id
    emit_asset (filled row.photo_public_id)
    save_user (λ u. record u { photo_url = none; photo_public_id = none }) row

  abbrev set_live : ℕ → Presence → World → World
  set_live user presence w = record w {
    presences = set_live_presence w.now user presence w.presences;
  }

  abbrev clear_live : ℕ → World → World
  clear_live user w = record w { presences = clear_live_presence user w.presences }

  -- The presence that the client gets back.
  unfoldable pub set_presence : ℕ → Presence → Action Presence
  set_presence id offline = do
    row ← require_active id
    now ← gets (λ w. w.now)
    modify (clear_live id)
    save_user (λ u. record u { presence = offline; last_seen_at = some now }) row
    found ← get_live_presence id
    pure (or_offline found)
  set_presence id presence = do
    row ← require_active id
    now ← gets (λ w. w.now)
    modify (set_live id presence)
    free ← gets (λ w. is_claim_free w.now id w.presences)
    when free do
      modify (λ w. record w { presences = claim w.now id w.presences })
      save_user (λ u. record u { presence = presence; last_seen_at = some now }) row
      pure tt
    found ← get_live_presence id
    pure (or_offline found)

  unfoldable pub mark_online : User → Action User
  mark_online row = do
    now ← gets (λ w. w.now)
    modify (set_live row.id online)
    save_user (λ u. record u { presence = online; last_seen_at = some now }) row

  unfoldable pub go_offline : ℕ → Action (Unit {0})
  go_offline id = do
    modify (clear_live id)
    modify (λ w. update_user id (λ u. record u { presence = offline; last_seen_at = some w.now }) w)
