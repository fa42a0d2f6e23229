-- ===== src/Calls/Rows.antt =====
-- The functions of src/calls/ that read or mutate one loaded row, and the texts of a call's log entry.
use chatwave_backend.Base.{
  ℕ, ◌+◌, ◌-◌, ◌/◌, Bool, true, false, ◌||◌, ◌&&◌, not, Option, none, some, List, ◌∷◌, ◌++◌, map,
  ltb, ◌==◌, if◌then◌else◌, is_some, find, update_first, or_else,
}
use chatwave_backend.Base.Text.{Text, text}
use chatwave_backend.Messages.Labels.{mmss}
use chatwave_backend.Schema.Message.{CallMeta}
use chatwave_backend.Schema.Call.{
  Call, CallParticipant, CallStatus, ringing, active, CallType, incoming, outgoing, IcePath,
}

-- `status: { $in: ['ringing', 'active'] }`
abbrev pub is_live : CallStatus → Bool
is_live ringing = true
is_live active = true
is_live _ = false

abbrev pub is_ringing : CallStatus → Bool
is_ringing ringing = true
is_ringing _ = false

abbrev pub participant_user : CallParticipant → ℕ
participant_user p = p.user

-- `ids(row)`
unfoldable pub ids : Call → List ℕ
ids row = map participant_user row.participants

abbrev pub is_seat_of : ℕ → CallParticipant → Bool
is_seat_of user p = p.user == user

unfoldable pub seat : Call → ℕ → Option CallParticipant
seat row user = find (is_seat_of user) row.participants

-- the participant that `seat` returned, mutated in place
unfoldable pub update_seat : ℕ → (CallParticipant → CallParticipant) → Call → Call
update_seat user f row = record row {
  participants = update_first (is_seat_of user) f row.participants;
}

-- The statuses with which a call is concluded.
pub data FinalStatus : Type 0 where
  ended missed declined : FinalStatus

abbrev pub to_status : FinalStatus → CallStatus
to_status FinalStatus.ended = CallStatus.ended
to_status FinalStatus.missed = CallStatus.missed
to_status FinalStatus.declined = CallStatus.declined

unfoldable pub finish_status : Call → ℕ → FinalStatus
finish_status row ended_by = elim row.status [
  | CallStatus.active ↦ FinalStatus.ended
  | _ ↦ if row.initiated_by == ended_by then FinalStatus.missed else FinalStatus.declined
]

-- The argument of `conclude`.
pub record Conclusion : Type 0 where
  pub status : FinalStatus
  pub ended_by : Option ℕ
  pub ice : Option IcePath

-- `Math.max(0, Math.round((+now - +answeredAt) / 1000))`
unfoldable pub seconds_since : ℕ → Option ℕ → ℕ
seconds_since now none = 0
seconds_since now (some answered) = (now - answered + 500) / 1000

-- `row.status === 'active' || input.status === 'ended'`
unfoldable pub ends_talk : CallStatus → FinalStatus → Bool
ends_talk CallStatus.active input = true
ends_talk _ FinalStatus.ended = true
ends_talk _ _ = false

unfoldable pub leave_seat : ℕ → CallParticipant → CallParticipant
leave_seat now p = if is_some p.left_at then p else record p { left_at = some now }

-- The fields that `conclude` writes before it saves the row.
unfoldable pub conclude_row : ℕ → Conclusion → Call → Call
unfolding seconds_since ends_talk leave_seat
conclude_row now input row = record row {
  status = if ends_talk row.status input.status then CallStatus.ended else to_status input.status;
  duration_sec = if ends_talk row.status input.status then seconds_since now row.answered_at else 0;
  ended_at = some now;
  ended_by = input.ended_by;
  ice = or_else input.ice row.ice;
  participants = map (leave_seat now) row.participants;
}

unfoldable pub answer_row : ℕ → ℕ → Call → Call
unfolding update_seat
answer_row now user row =
    update_seat user (λ p. record p { joined_at = some now })
      (record row { status = active; answered_at = some now })

unfoldable pub decline_row : ℕ → ℕ → Call → Call
unfolding update_seat
decline_row now user row = update_seat user (λ p. record p { left_at = some now }) row

-- The row that `markJoined` saves, if it saves one.
unfoldable pub join_row : ℕ → ℕ → Call → Call
unfolding update_seat
join_row now user row =
    update_seat user (λ p. record p { joined_at = some (or_else p.joined_at now) }) row

unfoldable pub callee_seat : ℕ → CallParticipant
callee_seat user = record { user = user; direction = incoming; joined_at = none; left_at = none }

unfoldable pub new_call : ℕ → ℕ → ℕ → CallType → ℕ → List ℕ → Call
unfolding callee_seat
new_call id now conversation type viewer callees = record {
  id = id;
  conversation = conversation;
  type = type;
  status = ringing;
  initiated_by = viewer;
  participants =
      record { user = viewer; direction = outgoing; joined_at = some now; left_at = none }
      ∷ map callee_seat callees;
  duration_sec = 0;
  ice = IcePath.unknown;
  started_at = now;
  answered_at = none;
  ended_at = none;
  ended_by = none;
}

abbrev kind_word : CallType → Text
kind_word CallType.video = text "video"
kind_word CallType.audio = text "voice"

abbrev type_label : CallType → Text
type_label CallType.video = text "Video call"
type_label CallType.audio = text "Voice call"

unfoldable pub call_label : CallType → Bool → Text
call_label type was_missed =
    if was_missed then text "Missed " ++ kind_word type ++ text " call" else type_label type

abbrev pub is_missed : CallStatus → Bool
is_missed CallStatus.missed = true
is_missed _ = false

abbrev pub is_declined : CallStatus → Bool
is_declined CallStatus.declined = true
is_declined _ = false

abbrev final_label : Call → Text
final_label row =
    if is_declined row.status
    then text "Declined " ++ kind_word row.type ++ text " call"
    else call_label row.type (is_missed row.status)

-- The log entry and the preview of a concluded call; `clock` gives the time of day.
unfoldable pub final_meta : (ℕ → Text) → Call → CallMeta
unfolding call_label
final_meta clock row = record {
  missed = is_missed row.status;
  label = final_label row;
  meta = if ltb 0 row.duration_sec then mmss row.duration_sec else clock row.started_at;
  call_id = row.id;
}

unfoldable pub final_preview : Call → Text
unfolding call_label
final_preview row =
    if not (is_missed row.status || is_declined row.status) && ltb 0 row.duration_sec
    then final_label row ++ text " · " ++ mmss row.duration_sec
    else final_label row

pub data ViewerDirection : Type 0 where
  in_call out_call missed_call : ViewerDirection

unfoldable pub call_direction : CallStatus → ℕ → ℕ → ViewerDirection
call_direction status initiated_by viewer =
    if is_missed status || (is_declined status && not (initiated_by == viewer))
    then missed_call
    else if initiated_by == viewer
    then out_call
    else in_call

pub data CallFilter : Type 0 where
  all missed voice video : CallFilter

abbrev is_video : CallType → Bool
is_video CallType.video = true
is_video CallType.audio = false

-- The query of `list`, less the part that asks for a seat of the viewer.
unfoldable pub passes_filter : CallFilter → ℕ → Call → Bool
passes_filter CallFilter.all viewer row = true
passes_filter CallFilter.voice viewer row = not (is_video row.type)
passes_filter CallFilter.video viewer row = is_video row.type
passes_filter CallFilter.missed viewer row =
    is_missed row.status || (is_declined row.status && not (row.initiated_by == viewer))
