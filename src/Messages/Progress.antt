-- ===== src/Messages/Progress.antt =====
-- What `mark` does to the receipts of a message, and when its sender sees it as read
-- (src/messages/messages.service.ts).
use chatwave_backend.Base.{
  ℕ, ◌≡◌, ◌≤◌, ◌<◌, refl, ◌≢◌, not, none, some, List, [], ◌∷◌, ◌++◌, ◌==◌, ◌↔◌, leb, arith,
  Bool-cases, Option-cases, inl, inr, All, find, filter, update_first, or_else, ==-refl,
}
use chatwave_backend.Schema.Message.{MessageReceipt, ReceiptStatus, sent, seen}
use chatwave_backend.Messages.Receipts.{
  rank, is_receipt_of, status_of, min_rank, ticks, mark_receipts,
}

-- The receipts that the message has after the loop's body, written or not.
abbrev pub marked : ℕ → ℕ → ReceiptStatus → List MessageReceipt → List MessageReceipt
marked now viewer status rs = or_else (mark_receipts now viewer status rs) rs

status_of-append_self :
    (rs : List MessageReceipt) (r : MessageReceipt)
    → find (is_receipt_of r.user) rs ≡ none
    → status_of (rs ++ r ∷ []) r.user ≡ r.status
unfolding status_of
status_of-append_self [] r e = rw (status_of, ==-refl r.user)
status_of-append_self (x ∷ rs) r e = ground (arith, status_of-append_self rs r)

status_of-append_ne :
    (rs : List MessageReceipt) (r : MessageReceipt) (user : ℕ)
    → user ≢ r.user
    → status_of (rs ++ r ∷ []) user ≡ status_of rs user
unfolding status_of
status_of-append_ne [] r user ne = ground arith
status_of-append_ne (x ∷ rs) r user ne = ground (arith, status_of-append_ne rs r user)

status_of-update_ne :
    (rs : List MessageReceipt) (now viewer user : ℕ) (status : ReceiptStatus)
    → user ≢ viewer
    → status_of
        (update_first (is_receipt_of viewer) (λ r. record r { status = status; at = now }) rs)
        user
      ≡ status_of rs user
unfolding status_of
status_of-update_ne [] now viewer user status ne = refl
status_of-update_ne (x ∷ rs) now viewer user status ne =
    ground (arith, status_of-update_ne rs now viewer user status)

status_of-update_self :
    (rs : List MessageReceipt) (now viewer : ℕ) (status : ReceiptStatus) (mine : MessageReceipt)
    → find (is_receipt_of viewer) rs ≡ some mine
    → status_of
        (update_first (is_receipt_of viewer) (λ r. record r { status = status; at = now }) rs)
        viewer
      ≡ status
unfolding status_of
status_of-update_self [] now viewer status mine e = cc
status_of-update_self (x ∷ rs) now viewer status mine e = elim (Bool-cases (x.user == viewer)) [
  | inl t ↦ rw (t, status_of, t)
  | inr t ↦ rw (t, status_of, t) (status_of-update_self rs now viewer status mine (rw t at e))
]

-- The three things that the body of the loop can do.
data Outcome (now viewer : ℕ) (status : ReceiptStatus) (rs : List MessageReceipt) : Type 0 where
  added :
      find (is_receipt_of viewer) rs ≡ none
      → marked now viewer status rs ≡ rs ++ record { user = viewer; status = status; at = now } ∷ []
      → Outcome now viewer status rs
  kept :
      (mine : MessageReceipt)
      → find (is_receipt_of viewer) rs ≡ some mine
      → rank status ≤ rank mine.status
      → marked now viewer status rs ≡ rs
      → Outcome now viewer status rs
  raised :
      (mine : MessageReceipt)
      → find (is_receipt_of viewer) rs ≡ some mine
      → rank mine.status < rank status
      → marked now viewer status rs
        ≡ update_first (is_receipt_of viewer) (λ r. record r { status = status; at = now }) rs
      → Outcome now viewer status rs

outcome :
    (now viewer : ℕ) (status : ReceiptStatus) (rs : List MessageReceipt)
    → Outcome now viewer status rs
unfolding mark_receipts
outcome now viewer status rs = elim (Option-cases (find (is_receipt_of viewer) rs)) [
  | inl e ↦ added e (ground arith)
  | inr (mine, e) ↦ elim (Bool-cases (leb (rank status) (rank mine.status))) [
    | inl t ↦ kept mine e (ground arith) (ground arith)
    | inr t ↦ raised mine e (ground arith) (ground arith)
  ]
]

status_of-found :
    (rs : List MessageReceipt) (user : ℕ) (r : MessageReceipt)
    → find (is_receipt_of user) rs ≡ some r
    → status_of rs user ≡ r.status
unfolding status_of
status_of-found rs user r e = ground arith

status_of-missing :
    (rs : List MessageReceipt) (user : ℕ)
    → find (is_receipt_of user) rs ≡ none
    → status_of rs user ≡ sent
unfolding status_of
status_of-missing rs user e = ground arith

rises_at :
    (now viewer : ℕ) (status : ReceiptStatus) (rs : List MessageReceipt)
    → (rank status ≤ rank (status_of (marked now viewer status rs) viewer))
      × (rank (status_of rs viewer) ≤ rank (status_of (marked now viewer status rs) viewer))
rises_at now viewer status rs = elim (outcome now viewer status rs) [
  | added e h ↦
      rw
        (
          h,
          status_of-append_self rs (record { user = viewer; status = status; at = now }) e,
          status_of-missing rs viewer e,
        )
        (omega arith, omega arith)
  | kept mine e le h ↦ rw (h, status_of-found rs viewer mine e) (le, omega arith)
  | raised mine e lt h ↦
      rw (h, status_of-update_self rs now viewer status mine e, status_of-found rs viewer mine e)
        (omega arith, omega arith)
]

marked-others :
    (now viewer : ℕ) (status : ReceiptStatus) (rs : List MessageReceipt) (user : ℕ)
    → user ≢ viewer
    → status_of (marked now viewer status rs) user ≡ status_of rs user
marked-others now viewer status rs user ne = elim (outcome now viewer status rs) [
  | added e h ↦
      rw h (status_of-append_ne rs (record { user = viewer; status = status; at = now }) user ne)
  | kept mine e le h ↦ rw h
  | raised mine e lt h ↦ rw h (status_of-update_ne rs now viewer user status ne)
]

-- Marking brings the viewer to at least the given status, takes no one's status back, and leaves the
-- others' as it was.
pub mark_receipts-rises :
    (now viewer : ℕ) (status : ReceiptStatus) (rs : List MessageReceipt)
    → (rank status ≤ rank (status_of (marked now viewer status rs) viewer))
      × (rank (status_of rs viewer) ≤ rank (status_of (marked now viewer status rs) viewer))
      × ((user : ℕ)
          → user ≢ viewer
          → status_of (marked now viewer status rs) user ≡ status_of rs user)
mark_receipts-rises now viewer status rs =
    let (reaches, rises) = rises_at now viewer status rs in
    (reaches, rises, λ user ne. marked-others now viewer status rs user ne)

abbrev pub IsSeenBy : List MessageReceipt → ℕ → Type 0
IsSeenBy rs user = status_of rs user ≡ seen

min_rank-seen :
    (rs : List MessageReceipt) (user : ℕ) (users : List ℕ)
    → (2 ≤ min_rank rs user users) ↔ All (IsSeenBy rs) (user ∷ users)
unfolding min_rank
min_rank-seen rs user [] = ((λ h. (ground arith, tt)), (λ h. ground arith))
min_rank-seen rs user (v ∷ users) =
    let (to, from) = min_rank-seen rs v users in
    ((λ h. (ground arith, to (omega arith))), (λ h. let rest = from h.1 in ground arith))

-- Of a message with a sender, where someone else is a member, the ticks say "seen" exactly where
-- everyone else has seen it.
pub ticks-seen :
    (rs : List MessageReceipt) (sender user : ℕ) (users members : List ℕ)
    → filter (λ id. not (id == sender)) members ≡ user ∷ users
    → (ticks rs (some sender) members ≡ some seen) ↔ All (IsSeenBy rs) (user ∷ users)
unfolding ticks
ticks-seen rs sender user users members e =
    let (to, from) = min_rank-seen rs user users in
    rw e ((λ h. to (ground arith)), (λ h. let least = from h in ground arith))
