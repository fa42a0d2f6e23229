-- ===== src/Users/Viewers.antt =====
-- The cache `authz:<user>` of src/users/users.service.ts against the collection.
use chatwave_backend.Base.{
  ℕ, ◌≡◌, refl, false, none, some, List, [], ◌∷◌, ◌==◌, if◌then◌else◌, update_first, Option-cases,
  Bool-cases, inl, inr, arith,
}
use chatwave_backend.Base.Rows.{find_row}
use chatwave_backend.Env.{Env, is_mongo_id}
use chatwave_backend.Schema.User.{User, AuthViewer}
use chatwave_backend.World.State.{
  World, ok, gets, pure, and_then, ◌>>=◌, ◌>>◌, modify, on_some, branch,
}
use chatwave_backend.World.Effects.{user_id}
use chatwave_backend.World.Ttl.{get}
use chatwave_backend.Users.Closing.{stored_viewer, read_viewer, get_auth_viewer, cache_viewer}

module _ (env : Env) where
  -- What the cache gives is what the collection says.
  pub record IsFresh (w : World) : Type 0 where
    pub agrees :
        (id : ℕ) (v : AuthViewer) → get w.now id w.authz ≡ some v → stored_viewer env id w ≡ some v

  -- With a cache that agrees with the collection, getAuthViewer answers what the collection says, and
  -- nothing for what is no ObjectId.
  pub get_auth_viewer-stored :
      (id : ℕ) (w : World)
      → IsFresh w
      → (get_auth_viewer env id w).0
        ≡ ok (if is_mongo_id env id then stored_viewer env id w else none)
  unfolding get_auth_viewer read_viewer cache_viewer ◌>>=◌ ◌>>◌ gets pure and_then branch on_some
      modify
  get_auth_viewer-stored id w h = elim (Bool-cases (is_mongo_id env id)) [
    | inr f ↦ rw f refl
    | inl m ↦ elim (Option-cases (get w.now id w.authz)) [
      | inr (v, e) ↦ rw (m, e, h.agrees id v e) refl
      | inl e ↦ elim (Option-cases (stored_viewer env id w)) [
        | inl n ↦ rw (m, e, n) refl
        | inr (v, n) ↦ rw (m, e, n) refl
      ]
    ]
  ]

  pub find_row-update_user :
      (j id : ℕ) (f : User → User) (us : List User)
      → ((u : User) → (f u).id ≡ u.id)
      → id == j ≡ false
      → find_row user_id j (update_first (λ u. u.id == id) f us) ≡ find_row user_id j us
  find_row-update_user j id f [] same ne = refl
  find_row-update_user j id f (u ∷ us) same ne =
      let kept = same u in ground (arith, find_row-update_user j id f us same ne)
