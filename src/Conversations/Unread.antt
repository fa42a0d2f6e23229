-- ===== src/Conversations/Unread.antt =====
-- The unread counts (src/conversations/).
use chatwave_backend.Base.{
  ℕ, ◌+◌, ◌≡◌, refl, inl, inr, Bool, true, false, ◌&&◌, not, Option, none, some, List, [], ◌∷◌, map,
  find, ◌==◌, arith, if◌then◌else◌, is_some, Option-cases,
}
use chatwave_backend.Schema.Conversation.{Conversation, ConversationMember}
use chatwave_backend.Conversations.Rows.{
  is_active_as, active_member, unread_of, bump_unread, apply_unread_increment,
}

find-bump :
    (except : Option ℕ) (user : ℕ) (ms : List ConversationMember)
    → find (is_active_as user) (map (bump_unread except) ms)
      ≡ elim (find (is_active_as user) ms) [ none ↦ none | some m ↦ some (bump_unread except m) ]
find-bump except user [] = refl
find-bump except user (m ∷ ms) = ground (arith, find-bump except user ms)

abbrev pub is_except : Option ℕ → ℕ → Bool
is_except none user = false
is_except (some u) user = u == user

-- A new message adds one unread message for every active member but the one who sent it, for whom the
-- count stays, as it does for everyone who is no active member.
pub unread_of-apply_unread_increment :
    (row : Conversation) (except : Option ℕ) (user : ℕ)
    → unread_of (apply_unread_increment row except) user ≡ (
        if is_some (active_member row user) && not (is_except except user)
        then unread_of row user + 1
        else unread_of row user)
unfolding unread_of apply_unread_increment active_member
unread_of-apply_unread_increment row except user =
    elim (Option-cases (find (is_active_as user) row.members)) [
      | inl e ↦ ground (arith, find-bump except user row.members)
      | inr (m, e) ↦ ground (arith, find-bump except user row.members, found row.members m e)
    ]
  where
    found :
        (ms : List ConversationMember) (m : ConversationMember)
        → find (is_active_as user) ms ≡ some m
        → is_active_as user m ≡ true
    found [] m e = cc
    found (x ∷ ms) m e = ground (arith, found ms m)
