-- ===== src/Conversations/Joining.antt =====
-- `addMembers` of src/conversations/conversations.service.ts: whom it brings in.
use chatwave_backend.Base.{
  ℕ, ◌≡◌, true, ◌||◌, List, [], ◌∷◌, ◌++◌, find, any, mem, update_first, arith, ◌==◌, is_some,
  Bool-cases, inl, inr, subst, ==→eq, or_right,
}
use chatwave_backend.Schema.Conversation.{Conversation, ConversationMember, member}
use chatwave_backend.Conversations.Rows.{
  is_active_as, active_member, member_doc, as_new_member, add_member, add_members,
}

abbrev pub IsActiveIn : Conversation → ℕ → Type 0
IsActiveIn row user = is_some (active_member row user) ≡ true

found-update :
    (now user id : ℕ) (ms : List ConversationMember)
    → is_some (find (is_active_as user) ms) ≡ true
    → is_some (find (is_active_as user) (update_first (λ m. m.user == id) (as_new_member now) ms))
      ≡ true
found-update now user id [] h = h
found-update now user id (m ∷ ms) h = ground (arith, found-update now user id ms)

pub found-snoc :
    (user : ℕ) (ms : List ConversationMember) (m : ConversationMember)
    → is_some (find (is_active_as user) ms) || is_active_as user m ≡ true
    → is_some (find (is_active_as user) (ms ++ m ∷ [])) ≡ true
found-snoc user [] m h = ground arith
found-snoc user (x ∷ ms) m h = ground (arith, found-snoc user ms m)

found-new :
    (now id : ℕ) (ms : List ConversationMember)
    → any (λ m. m.user == id) ms ≡ true
    → is_some (find (is_active_as id) (update_first (λ m. m.user == id) (as_new_member now) ms))
      ≡ true
found-new now id [] h = h
found-new now id (m ∷ ms) h = ground (arith, found-new now id ms)

-- No one who is active is put out, and the new id is active.
add_member-active :
    (now : ℕ) (row : Conversation) (id : ℕ)
    → IsActiveIn (add_member now row id) id
      × ((user : ℕ) → IsActiveIn row user → IsActiveIn (add_member now row id) user)
unfolding active_member add_member member_doc
add_member-active now row id = elim (Bool-cases (is_some (find (is_active_as id) row.members))) [
  | inl t ↦ rw t (t, λ user h. h)
  | inr t ↦ elim (Bool-cases (any (λ m. m.user == id) row.members)) [
    | inl k ↦
        rw (t, k) (found-new now id row.members k, λ user h. found-update now user id row.members h)
    | inr k ↦
        rw (t, k)
          (
            found-snoc id row.members (member_doc id member now) (ground arith),
            λ user h. found-snoc user row.members (member_doc id member now) (ground arith),
          )
  ]
]

-- Whoever is named is an active member afterwards, and everyone who was one still is.
add_members-IsActiveIn :
    (now : ℕ) (row : Conversation) (users : List ℕ) (user : ℕ)
    → mem user users || is_some (active_member row user) ≡ true
    → IsActiveIn (add_members now row users).0 user
unfolding add_members
add_members-IsActiveIn now row [] user h = h
add_members-IsActiveIn now row (id ∷ ids) user h =
    let (new, kept) = add_member-active now row id in
    add_members-IsActiveIn now (add_member now row id) ids user (elim (Bool-cases (id == user)) [
      | inl t ↦
          or_right (mem user ids) (is_some (active_member (add_member now row id) user))
            (subst (IsActiveIn (add_member now row id)) (==→eq id user t) new)
      | inr t ↦ elim (Bool-cases (mem user ids)) [
        | inl m ↦ rw m
        | inr m ↦ rw m (kept user (rw (t, m) at h))
      ]
    ])
