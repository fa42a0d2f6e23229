-- ===== src/Sockets/Grace.antt =====
-- The timers that would put a user offline: each is in the map `offline`, one for a user at most, and
-- its user has no socket.
use chatwave_backend.Base.{
  ℕ, ◌≡◌, ◌≢◌, refl, sym, ap, subst, ◌∙◌, some, true, List, [], ◌∷◌, ◌==◌, leb, arith, Bool-cases,
  inl, inr, All, All-append,
}
use chatwave_backend.Base.Rows.{Unique, Unique-snoc}
use chatwave_backend.Sockets.State.{Socket, Pending}
use chatwave_backend.Sockets.Session.{unlist, cancel, set_offline, drop_due, first_due}
use chatwave_backend.Sockets.Counts.{connected}

abbrev pub pending_user : Pending → ℕ
pending_user p = p.user

abbrev pub Graced : List Socket → Pending → Type 0
Graced cs p = (p.is_listed ≡ true) × (connected p.user cs ≡ 0)

pub Graced-mono :
    (cs ds : List Socket) (ps : List Pending)
    → ((u : ℕ) → connected u cs ≡ 0 → connected u ds ≡ 0)
    → All (Graced cs) ps
    → All (Graced ds) ps
Graced-mono cs ds [] f h = tt
Graced-mono cs ds (p ∷ ps) f h = ((h.0.0, f p.user h.0.1), Graced-mono cs ds ps f h.1)

-- A user with a socket has no timer.
pub Graced-others :
    (cs : List Socket) (user : ℕ) (ps : List Pending)
    → connected user cs ≢ 0
    → All (Graced cs) ps
    → All (λ p. p.user ≢ user) ps
Graced-others cs user [] ne h = tt
Graced-others cs user (p ∷ ps) ne h = (λ e. ne (rw (← e) h.0.1), Graced-others cs user ps ne h.1)

pub unlist-others :
    (user : ℕ) (ps : List Pending) → All (λ p. p.user ≢ user) ps → unlist user ps ≡ ps
unfolding unlist
unlist-others user [] h = refl
unlist-others user (p ∷ ps) h = let ne = h.0 in ground (arith, unlist-others user ps h.1)

-- After the timer of a user is cancelled, the user may have sockets.
pub cancel-Graced :
    (cs : List Socket) (s : Socket) (ps : List Pending)
    → All (Graced cs) ps
    → All (Graced (s ∷ cs)) (cancel s.user ps)
unfolding cancel connected
cancel-Graced cs s [] h = tt
cancel-Graced cs s (p ∷ ps) h =
    let listed = h.0.0 in
    let none_left = h.0.1 in
    elim (Bool-cases (p.user == s.user)) [
      | inl t ↦ rw (t, listed) (cancel-Graced cs s ps h.1)
      | inr f ↦ rw f ((listed, ground arith), cancel-Graced cs s ps h.1)
    ]

module _ (P : Pending → Type 0) where
  pub All-drop_due : (now : ℕ) (ps : List Pending) → All P ps → All P (drop_due now ps)
  All-drop_due now [] h = tt
  All-drop_due now (p ∷ ps) h = elim (Bool-cases (leb p.due now)) [
    | inl t ↦ rw t h.1
    | inr f ↦ rw f (h.0, All-drop_due now ps h.1)
  ]

pub Unique-drop_due :
    (now : ℕ) (ps : List Pending) → Unique pending_user ps → Unique pending_user (drop_due now ps)
Unique-drop_due now [] u = tt
Unique-drop_due now (p ∷ ps) u = elim (Bool-cases (leb p.due now)) [
  | inl t ↦ rw t u.1
  | inr f ↦ rw f (All-drop_due (λ q. q.user ≢ p.user) now ps u.0, Unique-drop_due now ps u.1)
]

first_due-other :
    (now : ℕ) (ps : List Pending) (p q : Pending)
    → All (λ y. y.user ≢ q.user) ps
    → first_due now ps ≡ some p
    → q.user ≡ p.user
    → ⊥
first_due-other now [] p q h e same = cc
first_due-other now (x ∷ ps) p q h e same = elim (Bool-cases (leb x.due now)) [
  | inl t ↦ let is : x ≡ p = ground arith in h.0 (ap (λ y. y.user) is ∙ sym same)
  | inr f ↦ first_due-other now ps p q h.1 (rw f at e) same
]

-- The timer that fires is no other user's and no other timer's.
pub drop_due-others :
    (now : ℕ) (ps : List Pending) (p : Pending)
    → Unique pending_user ps
    → first_due now ps ≡ some p
    → All (λ q. q.user ≢ p.user) (drop_due now ps)
drop_due-others now [] p u e = tt
drop_due-others now (q ∷ ps) p u e = elim (Bool-cases (leb q.due now)) [
  | inl t ↦
      let same : q ≡ p = ground arith in rw t (subst (λ x. All (λ y. y.user ≢ x.user) ps) same u.0)
  | inr f ↦
      let rest = drop_due-others now ps p u.1 (rw f at e) in
      rw f ((λ same. absurd (first_due-other now ps p q u.0 (rw f at e) same)), rest)
]

pub snoc-Graced :
    (cs ds : List Socket) (now user : ℕ) (ps : List Pending)
    → ((u : ℕ) → connected u cs ≡ 0 → connected u ds ≡ 0)
    → connected user cs ≢ 0
    → connected user ds ≡ 0
    → All (Graced cs) ps
    → Unique pending_user ps
    → All (Graced ds) (set_offline now user ps) × Unique pending_user (set_offline now user ps)
unfolding set_offline
snoc-Graced cs ds now user ps f ne gone h u =
    let others = Graced-others cs user ps ne h in
    rw (unlist-others user ps others) (
      All-append (Graced ds) ps _ (Graced-mono cs ds ps f h) ((refl, gone), tt),
      Unique-snoc pending_user ps _ u others,
    )
