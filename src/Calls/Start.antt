-- ===== src/Calls/Start.antt =====
-- `start` of src/calls/calls.service.ts: its busy check keeps everyone out of a second live call.
use chatwave_backend.Base.{
  ℕ, String, ◌+◌, ◌<◌, ◌≡◌, refl, sym, subst, ◌∙◌, Bool, true, false, ◌&&◌, not, Option, none, some,
  List, [], ◌∷◌, map, arith, ◌==◌, All, any, filter, inl, inr, is_none, is_some, mem, ==→eq,
  or_cases, or_mono, or_false, and_true, or_right, find, All-filter,
}
use chatwave_backend.Env.{Env}
use chatwave_backend.Schema.User.{AuthViewer}
use chatwave_backend.Schema.Conversation.{Conversation, ConversationMember}
use chatwave_backend.Schema.Call.{Call, CallType, CallParticipant}
use chatwave_backend.World.State.{World, Action, when, ◌>>◌}
use chatwave_backend.World.Effects.{create_call, fresh_id, load_conversation}
use chatwave_backend.World.Keeps.{Keeps, on_some-Keeps}
use chatwave_backend.World.Hoare.{
  Hoare, Always, framed, with_fact, pure-Hoare, gets-Hoare, or_throw-Hoare, branch-Hoare,
  bind-Hoare, seq-Hoare, weaken, strengthen, throw_if-Hoare, modify-Hoare,
}
use chatwave_backend.Users.{find_by_ids}
use chatwave_backend.Blocks.Queries.{assert_not_blocked}
use chatwave_backend.Conversations.Rows.{
  active_member, active_member_ids, is_active, is_active_as, member_user,
}
use chatwave_backend.Conversations.Service.{assert_member}
use chatwave_backend.Conversations.Details.{if_active}
use chatwave_backend.Calls.Rows.{new_call, callee_seat}
use chatwave_backend.Calls.Service.{
  is_busy_row, is_seated, busy, clear_stale_busy, free_viewer, start_guards, start,
  hangup_all_for_user,
}
use chatwave_backend.Calls.Lifecycle.{IsValid, HoldsSeat, is_sitting}
use chatwave_backend.Calls.Frame.{
  assert_not_blocked-Keeps, busy_by_key-Keeps, clear_stale_busy-Keeps, announce_call-Keeps,
}
use chatwave_backend.Calls.Tracks.{Tracks, Tracks-Framed, Apart, create-Tracks}
use chatwave_backend.Calls.Handlers.{framed_step, hangup_all-Hoare, expire_rings-Hoare}

-- A seat of one of the members.
sitting-seated :
    (user : ℕ) (members : List ℕ) (p : CallParticipant)
    → mem user members ≡ true
    → is_sitting user p ≡ true
    → is_seated members p ≡ true
sitting-seated user members p m h =
    let same : p.user ≡ user = ground arith in
    let free : is_none p.left_at ≡ true = ground arith in rw (same, free, m)

any-seated :
    (user : ℕ) (members : List ℕ) (ps : List CallParticipant)
    → mem user members ≡ true
    → any (is_sitting user) ps ≡ true
    → any (is_seated members) ps ≡ true
any-seated user members [] m h = h
any-seated user members (p ∷ ps) m h =
    or_mono (is_sitting user p) (is_seated members p) (any (is_sitting user) ps)
      (any (is_seated members) ps) (sitting-seated user members p m) (any-seated user members ps m)
      h

-- A call that the busy query does not find seats none of the members.
not_busy-Apart :
    (members : List ℕ) (c : Call) (cs : List Call)
    → any (is_busy_row members) cs ≡ false
    → ((user : ℕ) → HoldsSeat user c → mem user members ≡ true)
    → All (λ d. Apart d c) cs
not_busy-Apart members c [] h k = tt
not_busy-Apart members c (d ∷ cs) h k =
    let (here, rest) = or_false (is_busy_row members d) (any (is_busy_row members) cs) h in
    ((λ user sd sc. sitting-busy user (k user sc) sd here), not_busy-Apart members c cs rest k)
  where
    sitting-busy :
        (user : ℕ) → mem user members ≡ true → HoldsSeat user d → is_busy_row members d ≡ false → ⊥
    sitting-busy user m sd here =
        let seated = any-seated user members d.participants m sd.1 in ground arith

callees-any :
    (user : ℕ) (members callees : List ℕ)
    → All (λ u. mem u members ≡ true) callees
    → any (is_sitting user) (map callee_seat callees) ≡ true
    → mem user members ≡ true
unfolding callee_seat
callees-any user members [] h e = cc
callees-any user members (u ∷ us) h e =
    elim (or_cases (u == user && true) (any (is_sitting user) (map callee_seat us)) e) [
      | inl t ↦ subst (λ x. mem x members ≡ true) (==→eq u user (and_true (u == user) true t).0) h.0
      | inr t ↦ callees-any user members us h.1 t
    ]

new_call-HoldsSeat :
    (id now chat : ℕ) (type : CallType) (viewer user : ℕ) (members callees : List ℕ)
    → mem viewer members ≡ true
    → All (λ u. mem u members ≡ true) callees
    → HoldsSeat user (new_call id now chat type viewer callees)
    → mem user members ≡ true
unfolding new_call
new_call-HoldsSeat id now chat type viewer user members callees m h e =
    elim (or_cases (viewer == user && true) (any (is_sitting user) (map callee_seat callees)) e.1) [
      | inl t ↦
          subst (λ x. mem x members ≡ true) (==→eq viewer user (and_true (viewer == user) true t).0)
            m
      | inr t ↦ callees-any user members callees h t
    ]

pub new_call-IsValid :
    (id now chat : ℕ) (type : CallType) (viewer : ℕ) (callees : List ℕ)
    → IsValid (new_call id now chat type viewer callees)
unfolding new_call
new_call-IsValid id now chat type viewer callees = (refl, refl, refl)

-- The viewer and the callees are active members of the conversation.
abbrev Covers : ℕ → Conversation × List ℕ → Type 0
Covers viewer (conversation, callees) =
    (mem viewer (active_member_ids conversation) ≡ true)
    × All (λ u. mem u (active_member_ids conversation) ≡ true) callees

find-mem :
    (user : ℕ) (ms : List ConversationMember)
    → is_some (find (is_active_as user) ms) ≡ true
    → mem user (map member_user (filter is_active ms)) ≡ true
find-mem user [] h = cc
find-mem user (m ∷ ms) h = ground (arith, find-mem user ms)

All-mem :
    (xs ys : List ℕ) → ((x : ℕ) → mem x xs ≡ true → mem x ys ≡ true) → All (λ x. mem x ys ≡ true) xs
All-mem [] ys h = tt
All-mem (x ∷ xs) ys h =
    (h x (ground arith), All-mem xs ys (λ z e. h z (or_right (x == z) (mem z xs) e)))

if_active-mem :
    (user : ℕ) (found : Option Conversation) (c : Conversation)
    → if_active user found ≡ some c
    → mem user (active_member_ids c) ≡ true
unfolding active_member_ids active_member
if_active-mem user none c e = cc
if_active-mem user (some d) c e =
    let same : d ≡ c = ground arith in
    let here : is_some (find (is_active_as user) d.members) ≡ true = ground arith in
    subst (λ x. mem user (map member_user (filter is_active x.members)) ≡ true) same
      (find-mem user d.members here)

members-Covers :
    (user : ℕ) (c : Conversation)
    → mem user (active_member_ids c) ≡ true
    → Covers user (c, filter (λ u. not (u == user)) (active_member_ids c))
members-Covers user c m = (
  m,
  All-filter (λ u. mem u (active_member_ids c) ≡ true) (λ u. not (u == user)) (active_member_ids c)
      (All-mem (active_member_ids c) (active_member_ids c) (λ x e. e)),
)

module _ (env : Env) (v : World) where
  busy-Hoare :
      (users : List ℕ)
      → Hoare
          (Tracks v)
          Always
          (busy env users)
          (λ b w. b ≡ false → any (is_busy_row users) w.calls ≡ false)
  unfolding busy
  busy-Hoare users = bind-Hoare (Tracks v) (gets-Hoare (Tracks v) _) λ live.
      branch-Hoare (Tracks v) live (λ t. pure-Hoare (Tracks v) true (λ w i p e. cc))
        (λ f.
          weaken (Tracks v)
            (strengthen (Tracks v)
              (framed_step env v (λ cs. any (is_busy_row users) cs ≡ false)
                (λ P fr. busy_by_key-Keeps P fr env users))
              (λ w t p. sym p.1 ∙ f))
            (λ b w t p e. p))

  free_viewer-Hoare :
      (viewer : ℕ) (members : List ℕ)
      → Hoare
          (Tracks v)
          Always
          (free_viewer env viewer members)
          (λ _ w. any (is_busy_row members) w.calls ≡ false)
  unfolding free_viewer when
  free_viewer-Hoare viewer members = bind-Hoare (Tracks v) (busy-Hoare members) λ taken.
      seq-Hoare (Tracks v) {Q = Always} (when-Hoare taken) (
        bind-Hoare (Tracks v) (busy-Hoare members)
          λ still. weaken (Tracks v) (throw_if-Hoare (Tracks v) still _) (λ a w t p. p.0 p.1))
    where
      when-Hoare :
          (taken : Bool) {P : World → Type 0}
          → Hoare
              (Tracks v)
              P
              (when taken (hangup_all_for_user env viewer >> clear_stale_busy env members))
              (λ _. Always)
      when-Hoare true =
          strengthen (Tracks v)
            (seq-Hoare (Tracks v) (hangup_all-Hoare env v viewer)
              (framed_step env v (λ cs. Unit) (λ P fr. clear_stale_busy-Keeps P fr env members)))
            (λ w t p. tt)
      when-Hoare false = pure-Hoare (Tracks v) tt (λ w t p. tt)

  assert_member-Hoare :
      (user id : ℕ)
      → Hoare
          (Tracks v)
          Always
          (assert_member env user id)
          (λ c w. mem user (active_member_ids c) ≡ true)
  unfolding assert_member load_conversation
  assert_member-Hoare user id = seq-Hoare (Tracks v) (throw_if-Hoare (Tracks v) _ _) (
      bind-Hoare (Tracks v) (gets-Hoare (Tracks v) _) λ found.
        weaken (Tracks v) (or_throw-Hoare (Tracks v) (if_active user found) _)
          (λ c w t p. if_active-mem user found c p.1))

  keep_fact :
      {F A : Type 0} {P : World → Type 0} {m : Action A}
      → F
      → Keeps (Tracks v) m
      → Hoare (Tracks v) P m (λ _ w. F)
  keep_fact {F} f k =
      strengthen (Tracks v) (framed (Tracks v) {P = λ w. F} k (record { apply = λ w p. p }))
        (λ w t p. f)

  start_guards-Hoare :
      (viewer : AuthViewer) (chat : ℕ)
      → Hoare (Tracks v) Always (start_guards env viewer chat) (λ cc w. Covers viewer.id cc)
  unfolding start_guards find_by_ids
  start_guards-Hoare viewer chat = bind-Hoare (Tracks v) (assert_member-Hoare viewer.id chat) λ c.
      strengthen (Tracks v)
        (with_fact (Tracks v) {P = Always} λ m.
          seq-Hoare (Tracks v) (throw_if-Hoare (Tracks v) _ _) (
            seq-Hoare (Tracks v)
              (keep_fact {F = Unit} tt
                (on_some-Keeps (Tracks v) _ tt (λ callee. blocked-Keeps _ _ _)))
              (bind-Hoare (Tracks v) (gets-Hoare (Tracks v) _) λ people.
                seq-Hoare (Tracks v) (throw_if-Hoare (Tracks v) _ _)
                  (pure-Hoare (Tracks v) _ (λ w t p. members-Covers viewer.id c m)))))
        (λ w t p. (tt, p))
    where
      blocked-Keeps :
          (a b : ℕ) (error : String) → Keeps (Tracks v) (assert_not_blocked env a b error)
      blocked-Keeps a b error = assert_not_blocked-Keeps (Tracks v) (Tracks-Framed v) env a b error

  -- The id that a new row gets is above those of all calls.
  fresh_id-Hoare :
      (F : List Call → Type 0)
      → Hoare
          (Tracks v)
          (λ w. F w.calls)
          fresh_id
          (λ id w. F w.calls × All (λ r. r.id < id) w.calls × (id < w.next_id))
  unfolding fresh_id
  fresh_id-Hoare F = record {
    apply = λ w t p. (
      (Tracks-Framed v).apply w (record w { next_id = w.next_id + 1 }) refl (omega arith) refl t,
      (p, t.good.bounded, omega arith),
    );
  }

  create_call-Hoare :
      (id now chat : ℕ) (type : CallType) (viewer : ℕ) (cc : Conversation × List ℕ)
      → Covers viewer cc
      → Hoare
          (Tracks v)
          (λ w.
            (any (is_busy_row (active_member_ids cc.0)) w.calls ≡ false)
            × All (λ r. r.id < id) w.calls
            × (id < w.next_id))
          (create_call (new_call id now chat type viewer cc.1))
          (λ _. Always)
  unfolding create_call new_call
  create_call-Hoare id now chat type viewer cc covers =
      modify-Hoare (Tracks v) _
        {P = λ w.
          (any (is_busy_row (active_member_ids cc.0)) w.calls ≡ false)
          × All (λ r. r.id < id) w.calls
          × (id < w.next_id)}
        λ w t p. (
          create-Tracks v w (new_call id now chat type viewer cc.1) t p.1 p.2
              (new_call-IsValid id now chat type viewer cc.1)
              (not_busy-Apart (active_member_ids cc.0) (new_call id now chat type viewer cc.1)
                w.calls p.0
                (λ user e.
                  new_call-HoldsSeat id now chat type viewer user (active_member_ids cc.0) cc.1
                    covers.0 covers.1 e)),
          tt,
        )

  pub start-Hoare :
      (viewer : AuthViewer) (chat : ℕ) (type : CallType)
      → Hoare (Tracks v) Always (start env viewer chat type) (λ _ w. Always w)
  unfolding start
  start-Hoare viewer chat type = bind-Hoare (Tracks v) (start_guards-Hoare viewer chat) λ cc.
      strengthen (Tracks v)
        (with_fact (Tracks v) {P = Always} λ covers.
          seq-Hoare (Tracks v) (discard (expire_rings-Hoare env v)) (
            seq-Hoare (Tracks v)
              (framed_step env v (λ cs. Unit) (λ P fr. clear_stale_busy-Keeps P fr env _))
              (seq-Hoare (Tracks v) (free_viewer-Hoare viewer.id (active_member_ids cc.0)) (
                bind-Hoare (Tracks v) (gets-Hoare (Tracks v) _) λ now.
                  bind-Hoare (Tracks v)
                    (strengthen (Tracks v)
                      (fresh_id-Hoare (λ cs. any (is_busy_row (active_member_ids cc.0)) cs ≡ false))
                      (λ w t p. p.0))
                    λ id.
                      seq-Hoare (Tracks v) (create_call-Hoare id now chat type viewer.id cc covers)
                        (seq-Hoare (Tracks v)
                          (framed_step env v (λ cs. Unit)
                            (λ P fr. announce_call-Keeps P fr env viewer cc.0 cc.1 _))
                          (pure-Hoare (Tracks v) _ (λ w t p. tt)))))))
        (λ w t p. (tt, p))
    where
      discard :
          {A : Type 0} {m : Action A}
          → Hoare (Tracks v) Always m (λ _ w. Always w)
          → Hoare (Tracks v) Always m (λ _. Always)
      discard h = h
