-- ===== src/Schema/Message.antt =====
-- src/messages/message.schema.ts and the types of messages.constants.ts.
use chatwave_backend.Base.{ℕ, Bool, Option, List}
use chatwave_backend.Base.Text.{Text}

pub data MessageType : Type 0 where
  plain image file voice video video_note system call : MessageType  -- `plain` is 'text'

pub data ReceiptStatus : Type 0 where
  sent delivered seen : ReceiptStatus

pub data DeleteScope : Type 0 where
  me everyone : DeleteScope

pub data AttachmentKind : Type 0 where
  image video file link : AttachmentKind

pub record MessageReaction : Type 0 where
  pub emoji : Text
  pub users : List ℕ

pub record MessageReceipt : Type 0 where
  pub user : ℕ
  pub status : ReceiptStatus
  pub at : ℕ

pub record MessageMedia : Type 0 where
  pub url : Text
  pub public_id : Text
  pub file_name : Text
  pub file_size : Text
  pub mime_type : Text
  pub duration : ℕ
  pub seed : ℕ
  pub width : ℕ
  pub height : ℕ
  pub kind : AttachmentKind

pub record CallMeta : Type 0 where
  pub missed : Bool
  pub label : Text
  pub meta : Text
  pub call_id : ℕ

pub record Message : Type 0 where
  pub id : ℕ
  pub conversation : ℕ
  pub sender : Option ℕ
  pub type : MessageType
  pub text : Text
  pub caption : Text
  pub media : MessageMedia
  pub attachments : List MessageMedia
  pub reply_to : Option ℕ
  pub reactions : List MessageReaction
  pub pinned : Bool
  pub pinned_by : Option ℕ
  pub pinned_at : Option ℕ
  pub receipts : List MessageReceipt
  pub deleted_at : Option ℕ
  pub deleted_by : Option ℕ
  pub deleted_for : List ℕ
  pub call_id : Option ℕ
  pub call_meta : Option CallMeta
  pub created_at : ℕ
