-- ===== src/Schema/Conversation.antt =====
-- src/conversations/conversation.schema.ts and the types of conversations.constants.ts.
use chatwave_backend.Base.{ℕ, Bool, Option, List}
use chatwave_backend.Base.Text.{Text}

pub data ConversationType : Type 0 where
  direct group : ConversationType

pub data MemberRole : Type 0 where
  admin member : MemberRole

pub data PreviewIcon : Type 0 where
  mic video image : PreviewIcon

pub record ConversationMember : Type 0 where
  pub user : ℕ
  pub role : MemberRole
  pub pinned : Bool
  pub muted : Bool
  pub archived : Bool
  pub unread_count : ℕ
  pub last_read_at : Option ℕ
  pub last_read_message : Option ℕ
  pub joined_at : ℕ
  pub left_at : Option ℕ
  pub removed_by : Option ℕ

pub record Conversation : Type 0 where
  pub id : ℕ
  pub type : ConversationType
  pub name : Text
  pub initials : Text
  pub tone : Text
  pub photo : Option Text
  pub photo_public_id : Option Text
  pub created_by : ℕ
  pub members : List ConversationMember
  pub last_message : Option ℕ
  pub last_message_sender : Option ℕ
  pub last_message_at : ℕ
  pub preview : Text
  pub preview_icon : Option PreviewIcon
  pub pair_key : Option Text
