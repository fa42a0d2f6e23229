-- ===== src/Calls/Service.antt =====
-- The handlers of src/calls/calls.service.ts. A handler returns the row that `toDto` turns into a
-- DTO; reads of the peer's profile are left out.
use chatwave_backend.Base.{
  ℕ, ◌+◌, ◌/◌, Bool, true, false, ◌&&◌, not, Option, none, some, List, [], ◌∷◌, leb, ◌==◌,
  if◌then◌else◌, is_none, is_some, filter, any, mem, head?, length, max,
}
use chatwave_backend.Env.{Env, is_mongo_id}
use chatwave_backend.Schema.User.{AuthViewer}
use chatwave_backend.Schema.Conversation.{Conversation}
use chatwave_backend.Schema.Call.{Call, CallParticipant, CallType, incoming, outgoing, IcePath}
use chatwave_backend.World.State.{
  Emit, Action, pure, gets, ◌>>=◌, ◌>>◌, throw_if, or_throw, for_each, when, on_some, branch,
  bad_request, forbidden, not_found, conflict,
}
use chatwave_backend.World.Effects.{
  emit, fresh_id, load_call, save_call, create_call, set_call_ring, clear_call_ring, set_call_busy,
  get_call_busy, clear_call_busy,
}
use chatwave_backend.Users.{find_by_ids, some_unavailable}
use chatwave_backend.Blocks.Queries.{assert_not_blocked, message_blocked}
use chatwave_backend.Conversations.Rows.{active_member_ids, is_group}
use chatwave_backend.Conversations.Service.{get_by_id, assert_member}
use chatwave_backend.Messages.Service.{send_call_log, update_call_log}
use chatwave_backend.Calls.Rows.{
  is_live, is_ringing, ids, seat, FinalStatus, finish_status, Conclusion, conclude_row, answer_row,
  decline_row, join_row, new_call, call_label, is_missed, is_declined, final_meta, final_preview,
}

-- `callees[0]` of a direct chat
abbrev pub direct_callee : Conversation → List ℕ → Option ℕ
direct_callee conversation callees = if is_group conversation.type then none else head? callees

-- `participants: { $elemMatch: { user: { $in: userIds }, leftAt: null } }`
abbrev pub is_seated : List ℕ → CallParticipant → Bool
is_seated users p = mem p.user users && is_none p.left_at

abbrev pub is_busy_row : List ℕ → Call → Bool
is_busy_row users row = is_live row.status && any (is_seated users) row.participants

abbrev pub is_live_row : Option Call → Bool
is_live_row none = false
is_live_row (some row) = is_live row.status

-- `status: { $in: [...] }, 'participants.user': userId`
abbrev pub is_live_with : ℕ → Call → Bool
is_live_with user row = is_live row.status && is_some (seat row user)

abbrev pub is_overdue : ℕ → ℕ → Call → Bool
is_overdue now timeout row = is_ringing row.status && leb (row.started_at + timeout) now

abbrev pub is_incoming : Option CallParticipant → Bool
is_incoming none = false
is_incoming (some p) = elim p.direction [ incoming ↦ true | outgoing ↦ false ]

abbrev pub is_callee : ℕ → Call → Bool
is_callee user row = not (row.initiated_by == user) && is_incoming (seat row user)

abbrev pub is_group_chat : Option Conversation → Bool
is_group_chat none = false
is_group_chat (some c) = is_group c.type

-- `!mine || mine.joinedAt`
abbrev pub has_joined : Option CallParticipant → Bool
has_joined none = true
has_joined (some p) = is_some p.joined_at

unfoldable pub notify_ended : Call → Action (Unit {0})
notify_ended row =
    emit
      (Emit.call_ended row.conversation (ids row) row.id row.status row.duration_sec row.ended_by)

-- the socket messages and the event for a call that was missed
unfoldable pub announce_missed : Call → Action (Unit {0})
announce_missed row = do
  emit (Emit.call_missed (ids row) row.id)
  emit (
      Emit.event_call_missed row.id row.conversation row.initiated_by
        (filter (λ u. not (u == row.initiated_by)) (ids row)))

unfoldable pub announce_declined : Call → ℕ → Action (Unit {0})
announce_declined row user = emit (Emit.call_declined row.conversation (ids row) row.id user)

module _ (env : Env) where
  -- what `conclude` does once it has saved the row
  unfoldable pub settle : Conclusion → Call → Action Call
  settle input row = do
    clear_call_ring row.id
    for_each (ids row) clear_call_busy
    update_call_log env (final_meta env.clock row) (final_preview row)
    notify_ended row
    when (is_missed row.status) (announce_missed row)
    when (is_declined row.status) (on_some input.ended_by tt (announce_declined row))
    pure row

  -- The mutated row comes back, as the caller's `row` is the same object.
  unfoldable pub conclude : Conclusion → Call → Action Call
  conclude input row = branch (not (is_live row.status)) (pure row) do
    now ← gets (λ w. w.now)
    save_call (conclude_row now input row)
    settle input (conclude_row now input row)

  unfoldable pub conclude_each : (Call → Conclusion) → List Call → Action (Unit {0})
  conclude_each input rows = for_each rows (λ row. conclude (input row) row >> pure tt)

  abbrev pub hangup_of : ℕ → Call → Conclusion
  hangup_of user row = record { status = finish_status row user; ended_by = some user; ice = none }

  unfoldable pub hangup_all_for_user : ℕ → Action (Unit {0})
  hangup_all_for_user user =
      branch (not (is_mongo_id env user)) (pure tt) do
        rows ← gets (λ w. filter (is_live_with user) w.calls)
        conclude_each (hangup_of user) rows

  abbrev pub expiry : Call → Conclusion
  expiry row = record { status = FinalStatus.missed; ended_by = none; ice = none }

  unfoldable pub expire_rings : Action ℕ
  expire_rings = do
    rows ← gets (λ w. filter (is_overdue w.now env.ring_timeout_ms) w.calls)
    conclude_each expiry rows
    pure (length rows)

  unfoldable pub require_participant : ℕ → ℕ → Action Call
  require_participant id user = do
    throw_if (not (is_mongo_id env id)) (not_found "Call not found")
    row ← or_throw (← load_call id) (not_found "Call not found")
    throw_if (is_none (seat row user)) (forbidden "You cannot access this call")
    pure row

  unfoldable pub require_callee : ℕ → ℕ → Action Call
  require_callee id user = do
    row ← require_participant id user
    throw_if (not (is_callee user row)) (forbidden "Only the person being called can do that")
    pure row

  -- the row of the call that a busy key names, if it is live
  unfoldable pub busy_row : ℕ → Action Bool
  busy_row call =
      branch (not (is_mongo_id env call)) (pure false)
        do row ← load_call call; pure (is_live_row row)

  unfoldable pub busy_by_key : List ℕ → Action Bool
  busy_by_key [] = pure false
  busy_by_key (user ∷ users) = do
    key ← get_call_busy user
    found ← on_some key false busy_row
    branch found (pure true) do when (is_some key) (clear_call_busy user); busy_by_key users

  unfoldable pub busy : List ℕ → Action Bool
  busy users = do
    live ← gets (λ w. any (is_busy_row users) w.calls)
    branch live (pure true) (busy_by_key users)

  unfoldable pub clear_stale_busy : List ℕ → Action (Unit {0})
  clear_stale_busy users = for_each users λ user. do
    key ← get_call_busy user
    found ← on_some key true busy_row
    when (not found) (clear_call_busy user)

  -- the second look of `start`, after the viewer's leftovers are closed
  unfoldable pub free_viewer : ℕ → List ℕ → Action (Unit {0})
  free_viewer viewer members = do
    taken ← busy members
    when taken (hangup_all_for_user viewer >> clear_stale_busy members)
    still ← busy members
    throw_if still (conflict "Already in a call")

  abbrev pub ring_ttl : ℕ
  ring_ttl = (env.ring_timeout_ms + 999) / 1000

  -- the guards of `start`: the conversation and the people to call
  unfoldable pub start_guards : AuthViewer → ℕ → Action (Conversation × List ℕ)
  start_guards viewer chat = do
    conversation ← assert_member env viewer.id chat
    let callees = filter (λ u. not (u == viewer.id)) (active_member_ids conversation)
    throw_if (length callees == 0) (bad_request "No one to call")
    on_some (direct_callee conversation callees) tt
        λ callee. assert_not_blocked env viewer.id callee message_blocked
    people ← find_by_ids callees
    throw_if (some_unavailable callees people) (bad_request "Someone in this chat is not available")
    pure (conversation, callees)

  -- what `start` does once the row is created
  unfoldable pub announce_call : AuthViewer → Conversation → List ℕ → Call → Action (Unit {0})
  announce_call viewer conversation callees row = do
    set_call_ring row.id ring_ttl
    for_each (active_member_ids conversation)
        (λ user. set_call_busy user row.id (max ring_ttl 14400))
    send_call_log env conversation.id viewer.id (record {
      missed = false;
      label = call_label row.type false;
      meta = env.clock row.started_at;
      call_id = row.id;
    })
    for_each callees (λ user. emit (Emit.call_incoming user row.id))
    emit (Emit.call_started conversation.id row.id)
    emit (Emit.event_call_incoming row.id conversation.id viewer.id callees)

  unfoldable pub start : AuthViewer → ℕ → CallType → Action Call
  start viewer chat type = do
    (conversation, callees) ← start_guards viewer chat
    expire_rings
    clear_stale_busy (active_member_ids conversation)
    free_viewer viewer.id (active_member_ids conversation)
    now ← gets (λ w. w.now)
    id ← fresh_id
    let row = new_call id now chat type viewer.id callees
    create_call row
    announce_call viewer conversation callees row
    pure row

  unfoldable pub accept : AuthViewer → ℕ → Action Call
  accept viewer id = do
    row ← require_callee id viewer.id
    throw_if (not (is_ringing row.status)) (bad_request "That call is no longer ringing")
    now ← gets (λ w. w.now)
    let row' = answer_row now viewer.id row
    save_call row'
    clear_call_ring row'.id
    emit (Emit.call_accepted row'.conversation (ids row') row'.id viewer.id)
    emit (Emit.call_joined row'.id viewer.id (ids row'))
    pure row'

  -- a call of a group goes on ringing; any other is concluded
  unfoldable pub store_declined : ℕ → Bool → Call → Action (Unit {0})
  store_declined user group row =
      branch (not group)
        (conclude (record { status = FinalStatus.declined; ended_by = some user; ice = none }) row
          >> pure tt)
        do save_call row; emit (Emit.call_declined row.conversation (ids row) row.id user)

  unfoldable pub decline : AuthViewer → ℕ → Action (Unit {0})
  decline viewer id = do
    row ← require_callee id viewer.id
    throw_if (not (is_ringing row.status)) (bad_request "That call is no longer ringing")
    now ← gets (λ w. w.now)
    clear_call_busy viewer.id
    conversation ← get_by_id env row.conversation
    store_declined viewer.id (is_group_chat conversation) (decline_row now viewer.id row)

  -- HTTP `end`
  unfoldable pub hang_up : AuthViewer → ℕ → Option IcePath → Action Call
  hang_up viewer id ice = do
    row ← require_participant id viewer.id
    branch (not (is_live row.status)) (notify_ended row >> pure row) (
        conclude
          (record { status = finish_status row viewer.id; ended_by = some viewer.id; ice = ice })
          row)

  unfoldable pub mark_joined : ℕ → ℕ → Action Call
  mark_joined id user = do
    row ← require_participant id user
    now ← gets (λ w. w.now)
    branch (has_joined (seat row user)) (pure row)
        do save_call (join_row now user row); pure (join_row now user row)
