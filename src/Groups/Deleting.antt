-- ===== src/Groups/Deleting.antt =====
-- `deleteConversation` of src/conversations/conversations.service.ts on a group.
use chatwave_backend.Base.{ℕ, ◌+◌, ◌≡◌, sym, subst, true, Option-cases, inl, inr, some, arith}
use chatwave_backend.Env.{Env, is_mongo_id}
use chatwave_backend.Base.Rows.{find_row, save_row, find_row-save_self, key-find_row}
use chatwave_backend.Schema.User.{AuthViewer}
use chatwave_backend.Schema.Conversation.{Conversation, ConversationMember}
use chatwave_backend.World.State.{
  World, ok, gets, pure, throw, throw_if, or_throw, and_then, ◌>>=◌, ◌>>◌, branch, modify,
}
use chatwave_backend.World.Effects.{conversation_id, load_conversation, save_conversation}
use chatwave_backend.Conversations.Rows.{
  active_member, is_group, is_group_admin, admin_count, update_active,
}
use chatwave_backend.Conversations.Service.{
  require_mine, require_member, hide_for_viewer, delete_conversation,
}
use chatwave_backend.Groups.Admins.{admin_count-hidden}

require_mine-run :
    (env : Env) (user id : ℕ) (w : World) (row : Conversation) (mine : ConversationMember)
    → is_mongo_id env id ≡ true
    → find_row conversation_id id w.conversations ≡ some row
    → active_member row user ≡ some mine
    → require_mine env user id w ≡ (ok (row, mine), w)
unfolding require_mine require_member load_conversation throw_if or_throw ◌>>=◌ ◌>>◌ gets pure
    and_then throw
require_mine-run env user id w row mine m e a = rw (m, e, a, a)

abbrev hidden : World → ℕ → Conversation → Conversation
hidden w user row = update_active user (λ m. record m { left_at = some w.now }) row

delete_conversation-run :
    (env : Env) (viewer : AuthViewer) (id : ℕ) (w : World) (row : Conversation)
    (mine : ConversationMember)
    → is_mongo_id env id ≡ true
    → find_row conversation_id id w.conversations ≡ some row
    → active_member row viewer.id ≡ some mine
    → is_group row.type ≡ true
    → (delete_conversation env viewer id w).1.conversations
      ≡ save_row conversation_id (hidden w viewer.id row) w.conversations
unfolding delete_conversation hide_for_viewer save_conversation ◌>>=◌ ◌>>◌ gets pure and_then branch
    modify
delete_conversation-run env viewer id w row mine m e a g =
    let run = require_mine-run env viewer.id id w row mine m e a in rw (run, g, run)

-- A group that one of its admins deletes stays stored under its id, with one admin less: where there was
-- only one, none is left.
pub delete_conversation-admin_count :
    (env : Env) (viewer : AuthViewer) (id : ℕ) (w : World) (row : Conversation)
    → is_mongo_id env id ≡ true
    → find_row conversation_id id w.conversations ≡ some row
    → is_group_admin row viewer.id ≡ true
    → (left : Conversation) × (find_row conversation_id id
          (delete_conversation env viewer id w).1.conversations
        ≡ some left)
      × (admin_count row ≡ admin_count left + 1)
unfolding is_group_admin update_active
delete_conversation-admin_count env viewer id w row m e a =
    elim (Option-cases (active_member row viewer.id)) [
      | inl none_active ↦ absurd (ground arith)
      | inr (mine, here) ↦
          let run = delete_conversation-run env viewer id w row mine m e here (ground arith) in
          let at_id : row.id ≡ id = key-find_row conversation_id id w.conversations row e in
          (
            hidden w viewer.id row,
            rw run (
                subst
                  (λ k.
                    find_row conversation_id k
                      (save_row conversation_id (hidden w viewer.id row) w.conversations)
                    ≡ some (hidden w viewer.id row))
                  at_id
                  (find_row-save_self conversation_id (hidden w viewer.id row) w.conversations row (
                    subst (λ k. find_row conversation_id k w.conversations ≡ some row) (sym at_id)
                      e))),
            admin_count-hidden w.now viewer.id row a,
          )
    ]
