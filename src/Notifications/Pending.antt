-- ===== src/Notifications/Pending.antt =====
-- What a round of `sendDigests` leaves pending (src/notifications/notifications.service.ts).
use chatwave_backend.Base.{
  ℕ, ◌≡◌, refl, true, List, [], ◌∷◌, ◌==◌, Option-cases, Bool-cases, inl, inr, arith, mem, All,
  find,
}
use chatwave_backend.Base.Rows.{find_row}
use chatwave_backend.World.State.{
  World, ok, gets, pure, modify, and_then, ◌>>=◌, ◌>>◌, for_each, on_some, branch,
}
use chatwave_backend.World.Effects.{emit, user_id}
use chatwave_backend.Auth.Sessions.{drop_member}
use chatwave_backend.Users.{find_active_by_id, visible_user}
use chatwave_backend.Notifications.Digests.{
  drop_digest, take_digest, send_digest, send_digests, wants_digest, is_digest_of,
}

-- The pending users with one round of the loop done.
pub record Sent (id : ℕ) (w : World) : Type 0 where
  pub after : World
  pub returns : send_digest id w ≡ (ok tt, after)
  pub pending : after.digest_pending ≡ drop_member id w.digest_pending

send_digest-Sent : (id : ℕ) (w : World) → Sent id w
unfolding send_digest take_digest drop_digest find_active_by_id emit ◌>>=◌ ◌>>◌ gets pure modify
    and_then branch on_some
send_digest-Sent id w =
    elim (Bool-cases (wants_digest (visible_user (find_row user_id id w.users)))) [
      | inr f ↦ record { after = drop_digest id w; returns = rw f refl; pending = refl }
      | inl t ↦ elim (Option-cases (find (is_digest_of id) w.digests)) [
        | inl n ↦ record { after = drop_digest id w; returns = rw (t, n) refl; pending = refl }
        | inr (d, n) ↦ record {
          after = (send_digest id w).1;
          returns = rw (t, n) refl;
          pending = rw (t, n) refl;
        }
      ]
    ]

abbrev Left : List ℕ → List ℕ → Type 0
Left ids pending = All (λ x. mem x ids ≡ true) pending

Left-drop :
    (id : ℕ) (ids pending : List ℕ) → Left (id ∷ ids) pending → Left ids (drop_member id pending)
Left-drop id ids [] h = tt
Left-drop id ids (x ∷ xs) (p, h) =
    let rest = Left-drop id ids xs h in
    elim (Bool-cases (x == id)) [ inl t ↦ rw t rest | inr f ↦ rw f (ground arith, rest) ]

-- The loop over users among whom all the pending ones are.
pub record Drained (ids : List ℕ) (w : World) : Type 0 where
  pub after : World
  pub returns : for_each ids send_digest w ≡ (ok tt, after)
  pub pending : after.digest_pending ≡ []

for_each-Drained : (ids : List ℕ) (w : World) → Left ids w.digest_pending → Drained ids w
unfolding for_each ◌>>◌ ◌>>=◌ and_then pure
for_each-Drained [] w h = record {
  after = w;
  returns = refl;
  pending = none_left w.digest_pending h;
}
  where
    none_left : (xs : List ℕ) → Left [] xs → xs ≡ []
    none_left [] h = refl
    none_left (x ∷ xs) (p, h) = absurd (ground arith)
for_each-Drained (id ∷ ids) w h =
    let sent = send_digest-Sent id w in
    let run = sent.returns in
    let less = sent.pending in
    let rest = for_each-Drained ids sent.after (rw less (Left-drop id ids w.digest_pending h)) in
    record { after = rest.after; returns = rw run rest.returns; pending = rest.pending }

All-mem : (xs : List ℕ) → Left xs xs
All-mem xs = keep xs xs (λ x h. h)
  where
    keep : (xs ys : List ℕ) → ((x : ℕ) → mem x xs ≡ true → mem x ys ≡ true) → Left ys xs
    keep [] ys f = tt
    keep (x ∷ xs) ys f = (f x (ground arith), keep xs ys (λ z h. f z (ground arith)))

-- A round of digests returns and leaves nobody pending.
pub send_digests-pending :
    (w : World) → (after : World) × (send_digests w ≡ (ok tt, after)) × (after.digest_pending ≡ [])
unfolding send_digests ◌>>=◌ gets and_then
send_digests-pending w =
    let drained = for_each-Drained w.digest_pending w (All-mem w.digest_pending) in
    (drained.after, drained.returns, drained.pending)
