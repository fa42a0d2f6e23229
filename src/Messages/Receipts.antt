-- ===== src/Messages/Receipts.antt =====
-- Receipts: `rank` and `ticks` of src/messages/messages.service.ts, and what `mark` does to the
-- receipts of one message.
use chatwave_backend.Base.{
  ℕ, Bool, Option, none, some, List, [], ◌∷◌, ◌++◌, leb, ◌==◌, not, if◌then◌else◌, filter, find,
  update_first, min,
}
use chatwave_backend.Schema.Message.{MessageReceipt, ReceiptStatus, sent, delivered, seen}

abbrev pub rank : ReceiptStatus → ℕ
rank seen = 2
rank delivered = 1
rank sent = 0

abbrev pub is_receipt_of : ℕ → MessageReceipt → Bool
is_receipt_of user r = r.user == user

-- `receipts.find(…)?.status ?? 'sent'`
unfoldable pub status_of : List MessageReceipt → ℕ → ReceiptStatus
status_of receipts user = elim (find (is_receipt_of user) receipts) [
  | none ↦ sent
  | some r ↦ r.status
]

unfoldable pub min_rank : List MessageReceipt → ℕ → List ℕ → ℕ
min_rank receipts user [] = rank (status_of receipts user)
min_rank receipts user (v ∷ users) =
    min (rank (status_of receipts user)) (min_rank receipts v users)

abbrev status_at : ℕ → ReceiptStatus
status_at least = if leb 2 least then seen else if leb 1 least then delivered else sent

abbrev ticks_for : List MessageReceipt → List ℕ → ReceiptStatus
ticks_for receipts [] = sent
ticks_for receipts (user ∷ users) = status_at (min_rank receipts user users)

unfoldable pub ticks : List MessageReceipt → Option ℕ → List ℕ → Option ReceiptStatus
ticks receipts none members = none
ticks receipts (some sender) members =
    some (ticks_for receipts (filter (λ id. not (id == sender)) members))

-- The new receipts, or `none` where the loop goes on without a write.
unfoldable pub mark_receipts :
    ℕ → ℕ → ReceiptStatus → List MessageReceipt → Option (List MessageReceipt)
mark_receipts now viewer status receipts = elim (find (is_receipt_of viewer) receipts) [
  | none ↦ some (receipts ++ record { user = viewer; status = status; at = now } ∷ [])
  | some mine ↦
      if leb (rank status) (rank mine.status)
      then none
      else some (
          update_first (is_receipt_of viewer) (λ r. record r { status = status; at = now })
            receipts)
]
