-- ===== src/Calls/Lifecycle.antt =====
-- How one call row may change: the diagram of its statuses, what a valid row is, and that each
-- mutation of src/calls/calls.service.ts follows the diagram and keeps the row valid.
use chatwave_backend.Base.{
  ℕ, ◌≡◌, refl, ap, sym, ◌∙◌, Bool, true, false, ◌&&◌, none, some, List, [], ◌∷◌, map, arith, ◌==◌,
  is_none, is_some, any, All, Bool-cases, inl, inr, update_first, or_else, map-update_first,
  any-update_back, subst, ◌≢◌,
}
use chatwave_backend.Schema.Call.{
  Call, CallParticipant, CallStatus, ringing, active, ended, missed, declined,
}
use chatwave_backend.Calls.Rows.{
  is_live, is_seat_of, participant_user, ids, update_seat, FinalStatus, Conclusion, leave_seat,
  conclude_row, answer_row, decline_row, join_row,
}

-- The diagram of a call's statuses.
infix 40 ◌⟶*◌
pub data ◌⟶*◌ : CallStatus → CallStatus → Type 0 where
  here : {s : CallStatus} → s ⟶* s
  answer : {s : CallStatus} → s ⟶* ringing → s ⟶* active
  finish : {s : CallStatus} → s ⟶* active → s ⟶* ended
  miss : {s : CallStatus} → s ⟶* ringing → s ⟶* missed
  refuse : {s : CallStatus} → s ⟶* ringing → s ⟶* declined

pub ⟶*-trans : {s t u : CallStatus} → s ⟶* t → t ⟶* u → s ⟶* u
⟶*-trans p here = p
⟶*-trans p (answer q) = answer (⟶*-trans p q)
⟶*-trans p (finish q) = finish (⟶*-trans p q)
⟶*-trans p (miss q) = miss (⟶*-trans p q)
⟶*-trans p (refuse q) = refuse (⟶*-trans p q)

-- A seat of the user that is not marked as left: its `leftAt` is null.
abbrev pub is_sitting : ℕ → CallParticipant → Bool
is_sitting user p = p.user == user && is_none p.left_at

-- The call is live and has such a seat: what the busy query of calls.service.ts asks. A callee who declines
-- is marked as left, and an accept after that does not take the mark away.
abbrev pub HoldsSeat : ℕ → Call → Type 0
HoldsSeat user row = (is_live row.status ≡ true) × (any (is_sitting user) row.participants ≡ true)

-- A concluded call stays as it was concluded.
pub record IsFrozen (r s : Call) : Type 0 where
  pub status : s.status ≡ r.status
  pub ended_at : s.ended_at ≡ r.ended_at
  pub ended_by : s.ended_by ≡ r.ended_by
  pub duration : s.duration_sec ≡ r.duration_sec
  pub answered_at : s.answered_at ≡ r.answered_at

pub record RowStep (r s : Call) : Type 0 where
  pub id : s.id ≡ r.id
  pub conversation : s.conversation ≡ r.conversation
  pub initiator : s.initiated_by ≡ r.initiated_by
  pub users : ids s ≡ ids r
  pub path : r.status ⟶* s.status
  pub frozen : is_live r.status ≡ false → IsFrozen r s
  pub seats : (user : ℕ) → HoldsSeat user s → HoldsSeat user r

pub RowStep-refl : (r : Call) → RowStep r r
RowStep-refl r = record {
  id = refl;
  conversation = refl;
  initiator = refl;
  users = refl;
  path = here;
  frozen = λ h. record {
    status = refl;
    ended_at = refl;
    ended_by = refl;
    duration = refl;
    answered_at = refl;
  };
  seats = λ u h. h;
}

IsFrozen-trans : {r s t : Call} → IsFrozen r s → IsFrozen s t → IsFrozen r t
IsFrozen-trans p q = record {
  status = q.status ∙ p.status;
  ended_at = q.ended_at ∙ p.ended_at;
  ended_by = q.ended_by ∙ p.ended_by;
  duration = q.duration ∙ p.duration;
  answered_at = q.answered_at ∙ p.answered_at;
}

pub RowStep-trans : {r s t : Call} → RowStep r s → RowStep s t → RowStep r t
RowStep-trans p q = record {
  id = q.id ∙ p.id;
  conversation = q.conversation ∙ p.conversation;
  initiator = q.initiator ∙ p.initiator;
  users = q.users ∙ p.users;
  path = ⟶*-trans p.path q.path;
  frozen = λ h. let f = p.frozen h in IsFrozen-trans f (q.frozen (ap is_live f.status ∙ h));
  seats = λ u h. p.seats u (q.seats u h);
}

abbrev pub HasLeft : CallParticipant → Type 0
HasLeft p = is_some p.left_at ≡ true

-- What the status of a row says about its other fields.
abbrev Facts : CallStatus → Call → Type 0
Facts ringing r = (r.answered_at ≡ none) × (r.ended_at ≡ none) × (r.duration_sec ≡ 0)
Facts active r = (is_some r.answered_at ≡ true) × (r.ended_at ≡ none) × (r.duration_sec ≡ 0)
Facts ended r =
    (is_some r.ended_at ≡ true) × (is_some r.answered_at ≡ true) × All HasLeft r.participants
Facts _ r = (is_some r.ended_at ≡ true) × (r.duration_sec ≡ 0) × All HasLeft r.participants

abbrev pub IsValid : Call → Type 0
IsValid row = Facts row.status row

-- `conclude` is given 'ended' only for a call that is being talked on.
abbrev pub Fits : Conclusion → Call → Type 0
Fits input row = row.status ≡ ringing → input.status ≢ FinalStatus.ended

All-leave : (now : ℕ) (ps : List CallParticipant) → All HasLeft (map (leave_seat now) ps)
unfolding leave_seat
All-leave now [] = tt
All-leave now (p ∷ ps) = (ground arith, All-leave now ps)

leave_users :
    (now : ℕ) (ps : List CallParticipant)
    → map participant_user (map (leave_seat now) ps) ≡ map participant_user ps
unfolding leave_seat
leave_users now [] = refl
leave_users now (p ∷ ps) = ground (arith, leave_users now ps)

conclude_path :
    (now : ℕ) (input : Conclusion) (row : Call)
    → is_live row.status ≡ true
    → Fits input row
    → row.status ⟶* (conclude_row now input row).status
unfolding conclude_row
conclude_path now input row live fits = grind (arith, here, answer, finish, miss, refuse)

pub conclude_row-RowStep :
    (now : ℕ) (input : Conclusion) (row : Call)
    → is_live row.status ≡ true
    → Fits input row
    → RowStep row (conclude_row now input row)
unfolding conclude_row ids
conclude_row-RowStep now input row live fits = record {
  id = refl;
  conversation = refl;
  initiator = refl;
  users = leave_users now row.participants;
  path = conclude_path now input row live fits;
  frozen = λ dead. absurd (ground arith);
  seats = λ u h. absurd (ground arith);
}

pub conclude_row-IsValid :
    (now : ℕ) (input : Conclusion) (row : Call)
    → is_live row.status ≡ true
    → Fits input row
    → IsValid row
    → IsValid (conclude_row now input row)
unfolding conclude_row
conclude_row-IsValid now input row live fits v = ground (arith, All-leave now row.participants)

module _ (user : ℕ) (f : CallParticipant → CallParticipant)
    (same : (p : CallParticipant) → (f p).user ≡ p.user) (row : Call) where
  update_seat-users : ids (update_seat user f row) ≡ ids row
  unfolding ids update_seat
  update_seat-users = map-update_first participant_user (is_seat_of user) f row.participants same

pub answer_row-RowStep :
    (now user : ℕ) (row : Call) → row.status ≡ ringing → RowStep row (answer_row now user row)
unfolding answer_row ids
answer_row-RowStep now user row e = record {
  id = refl;
  conversation = refl;
  initiator = refl;
  users =
      update_seat-users user _ (λ p. refl) (record row { status = active; answered_at = some now });
  path = subst (λ s. s ⟶* active) (sym e) (answer here);
  frozen = λ dead. absurd (ground arith);
  seats = λ u h.
      (rw e, any-update_back (is_sitting u) _ (λ p k. k) (is_seat_of user) row.participants h.1);
}

pub decline_row-RowStep :
    (now user : ℕ) (row : Call) → row.status ≡ ringing → RowStep row (decline_row now user row)
unfolding decline_row ids
decline_row-RowStep now user row e = record {
  id = refl;
  conversation = refl;
  initiator = refl;
  users = update_seat-users user _ (λ p. refl) row;
  path = here;
  frozen = λ dead. absurd (ground arith);
  seats = λ u h. (
    h.0,
    any-update_back (is_sitting u) _ (λ p k. ground arith) (is_seat_of user) row.participants h.1,
  );
}

pub join_row-RowStep : (now user : ℕ) (row : Call) → RowStep row (join_row now user row)
unfolding join_row ids
join_row-RowStep now user row = record {
  id = refl;
  conversation = refl;
  initiator = refl;
  users = update_seat-users user _ (λ p. refl) row;
  path = here;
  frozen = λ dead. record {
    status = refl;
    ended_at = refl;
    ended_by = refl;
    duration = refl;
    answered_at = refl;
  };
  seats = λ u h.
      (h.0, any-update_back (is_sitting u) _ (λ p k. k) (is_seat_of user) row.participants h.1);
}

pub answer_row-IsValid :
    (now user : ℕ) (row : Call)
    → row.status ≡ ringing
    → IsValid row
    → IsValid (answer_row now user row)
unfolding answer_row
answer_row-IsValid now user row e v = ground arith

pub decline_row-IsValid :
    (now user : ℕ) (row : Call)
    → row.status ≡ ringing
    → IsValid row
    → IsValid (decline_row now user row)
unfolding decline_row
decline_row-IsValid now user row e v = ground arith

All-update_first :
    (p : CallParticipant → Bool) (f : CallParticipant → CallParticipant) (ps : List CallParticipant)
    → ((x : CallParticipant) → HasLeft x → HasLeft (f x))
    → All HasLeft ps
    → All HasLeft (update_first p f ps)
All-update_first p f [] k h = tt
All-update_first p f (x ∷ xs) k h = elim (Bool-cases (p x)) [
  | inl e ↦ rw e (k x h.0, h.1)
  | inr e ↦ rw e (h.0, All-update_first p f xs k h.1)
]

pub join_row-IsValid : (now user : ℕ) (row : Call) → IsValid row → IsValid (join_row now user row)
unfolding join_row
join_row-IsValid now user row v = ground (
  arith,
  All-update_first (is_seat_of user) (λ p. record p { joined_at = some (or_else p.joined_at now) })
      row.participants (λ x h. h),
)
