-- ===== src/Conversations/Direct.antt =====
-- `ensureDirectMembers` of src/conversations/conversations.service.ts.
use chatwave_backend.Base.{
  ℕ, ◌≡◌, true, none, List, [], ◌∷◌, find, any, update_first, arith, ◌==◌, is_some, Bool-cases, inl,
  inr,
}
use chatwave_backend.Schema.Conversation.{Conversation, ConversationMember, member}
use chatwave_backend.Conversations.Rows.{
  is_active_as, active_member, member_doc, rejoin_or_add, ensure_direct_members,
}
use chatwave_backend.Conversations.Joining.{IsActiveIn, found-snoc}

abbrev back : ConversationMember → ConversationMember
back m = record m { left_at = none; removed_by = none }

abbrev Found : ℕ → List ConversationMember → Type 0
Found user ms = is_some (find (is_active_as user) ms) ≡ true

back-Found :
    (user id : ℕ) (ms : List ConversationMember)
    → Found user ms
    → Found user (update_first (λ m. m.user == id) back ms)
back-Found user id [] h = h
back-Found user id (m ∷ ms) h = ground (arith, back-Found user id ms)

back-Found_self :
    (id : ℕ) (ms : List ConversationMember)
    → any (λ m. m.user == id) ms ≡ true
    → Found id (update_first (λ m. m.user == id) back ms)
back-Found_self id [] h = h
back-Found_self id (m ∷ ms) h = ground (arith, back-Found_self id ms)

rejoin-Found :
    (now id user : ℕ) (ms : List ConversationMember)
    → Found id (rejoin_or_add now ms id) × (Found user ms → Found user (rejoin_or_add now ms id))
unfolding member_doc
rejoin-Found now id user ms = elim (Bool-cases (any (λ m. m.user == id) ms)) [
  | inl t ↦ rw t (back-Found_self id ms t, λ h. back-Found user id ms h)
  | inr t ↦ rw t (
    found-snoc id ms (member_doc id member now) (ground arith),
    λ h. found-snoc user ms (member_doc id member now) (ground arith),
  )
]

-- Opening a direct chat again makes both of its users active members, whoever of them had left, and
-- puts no one out.
ensure_direct_members-IsActiveIn :
    (now : ℕ) (row : Conversation) (a b user : ℕ)
    → IsActiveIn (ensure_direct_members now row a b) a
      × IsActiveIn (ensure_direct_members now row a b) b
      × (IsActiveIn row user → IsActiveIn (ensure_direct_members now row a b) user)
unfolding ensure_direct_members active_member
ensure_direct_members-IsActiveIn now row a b user =
    let (first, _) = rejoin-Found now a user row.members in
    let (second, keeps) = rejoin-Found now b a (rejoin_or_add now row.members a) in
    (
      keeps first,
      second,
      λ h.
          (rejoin-Found now b user (rejoin_or_add now row.members a)).1
            ((rejoin-Found now a user row.members).1 h),
    )
