-- ===== src/Messages/Rows.antt =====
-- What the handlers of src/messages/messages.service.ts do to the rows that they load and create.
use chatwave_backend.Base.{
  ℕ, Bool, true, false, ◌||◌, ◌&&◌, not, Option, none, some, List, [], ◌∷◌, map, ◌==◌,
  if◌then◌else◌, is_none, any, mem, length,
}
use chatwave_backend.Base.Text.{Text, is_empty, text_eq}
use chatwave_backend.Env.{Env, is_mongo_id}
use chatwave_backend.Schema.User.{User}
use chatwave_backend.Schema.Conversation.{Conversation}
use chatwave_backend.Schema.Message.{
  Message, MessageType, plain, system, call, MessageMedia, CallMeta, ReceiptStatus, sent, delivered,
  seen, DeleteScope, me, everyone, file, MessageReceipt,
}
use chatwave_backend.World.State.{Preview}
use chatwave_backend.Conversations.Preview.{viewer_preview}
use chatwave_backend.Conversations.Rows.{active_member_ids, unread_of, PreviewInput}
use chatwave_backend.Messages.Labels.{label}

abbrev pub text_max : ℕ
text_max = 4000

abbrev no_media : MessageMedia
no_media = record {
  url = [];
  public_id = [];
  file_name = [];
  file_size = [];
  mime_type = [];
  duration = 0;
  seed = 0;
  width = 0;
  height = 0;
  kind = chatwave_backend.Schema.Message.AttachmentKind.file;
}

-- A row as `create` fills it from the defaults of the schema.
unfoldable pub new_message : ℕ → ℕ → ℕ → Option ℕ → MessageType → Text → Message
new_message now id conversation sender type body = record {
  id = id;
  conversation = conversation;
  sender = sender;
  type = type;
  text = body;
  caption = [];
  media = no_media;
  attachments = [];
  reply_to = none;
  reactions = [];
  pinned = false;
  pinned_by = none;
  pinned_at = none;
  receipts = elim sender [
    | none ↦ []
    | some user ↦ record { user = user; status = sent; at = now } ∷ []
  ];
  deleted_at = none;
  deleted_by = none;
  deleted_for = [];
  call_id = none;
  call_meta = none;
  created_at = now;
}

unfoldable pub previews : Conversation → Text → Option ℕ → List Preview
previews live value sender =
    map
      (λ user. record {
        user = user;
        preview = viewer_preview value sender user;
        unread = unread_of live user;
      })
      (active_member_ids live)

abbrev pub or_row : Option Conversation → Conversation → Conversation
or_row none row = row
or_row (some live) row = live

unfoldable pub should_send_read_receipt : Option User → Bool
should_send_read_receipt none = true
should_send_read_receipt (some u) = elim u.settings.read_receipts [ none ↦ true | some b ↦ b ]

abbrev pub with_call : CallMeta → Message → Message
with_call input row = record row { call_id = some input.call_id; call_meta = some input }

abbrev is_call : MessageType → Bool
is_call call = true
is_call _ = false

abbrev pub is_call_log : ℕ → Message → Bool
is_call_log id row = is_call row.type && elim row.call_id [ none ↦ false | some c ↦ c == id ]

-- The argument of `bumpPreview` in `updateCallLog`.
abbrev pub call_preview : ℕ → Option ℕ → Text → PreviewInput
call_preview now sender preview = record {
  preview = preview;
  preview_icon = none;
  last_message = none;
  last_message_at = some now;
  sender_id = some sender;
}

abbrev pub flip_pin : ℕ → ℕ → Message → Message
flip_pin now viewer row = record row {
  pinned = not row.pinned;
  pinned_by = if row.pinned then none else some viewer;
  pinned_at = if row.pinned then none else some now;
}

abbrev pub is_from : ℕ → Option ℕ → Bool
is_from user none = false
is_from user (some s) = s == user

abbrev distinct_texts : List Text → List Text → List Text
distinct_texts known [] = []
distinct_texts known (t ∷ ts) =
    if is_empty t || any (text_eq t) known
    then distinct_texts known ts
    else t ∷ distinct_texts (t ∷ known) ts

-- The `publicId`s whose assets are deleted, each once.
unfoldable pub asset_ids : Message → List Text
asset_ids row = distinct_texts [] (row.media.public_id ∷ map (λ a. a.public_id) row.attachments)

abbrev pub is_bad_id : Env → Option ℕ → Bool
is_bad_id env none = false
is_bad_id env (some id) = not (is_mongo_id env id)

abbrev is_wanted : Option ℕ → ℕ → Bool
is_wanted none id = true
is_wanted (some wanted) id = id == wanted

-- the filter of `mark`
unfoldable pub is_markable : ℕ → ℕ → Option ℕ → Message → Bool
is_markable viewer conversation wanted row =
    row.conversation == conversation
    && not (is_from viewer row.sender)
    && is_none row.deleted_at
    && not (mem viewer row.deleted_for)
    && is_wanted wanted row.id

abbrev pub is_seen : ReceiptStatus → Bool
is_seen seen = true
is_seen _ = false

abbrev pub is_message_of : ℕ → Option Message → Bool
is_message_of conversation none = false
is_message_of conversation (some m) = m.conversation == conversation

-- The argument of `persist`; `media` is the first attachment.
pub record MessageInput : Type 0 where
  pub type : MessageType
  pub text : Text
  pub caption : Text
  pub reply_to : Option ℕ
  pub attachments : List MessageMedia

abbrev first_media : List MessageMedia → MessageMedia
first_media [] = no_media
first_media (m ∷ ms) = m

abbrev pub with_input : MessageInput → Message → Message
with_input input row = record row {
  caption = input.caption;
  media = first_media input.attachments;
  attachments = input.attachments;
  reply_to = input.reply_to;
}

abbrev pub text_input : Text → Option ℕ → MessageInput
text_input value reply = record {
  type = plain;
  text = value;
  caption = [];
  reply_to = reply;
  attachments = [];
}

-- The preview that `label` gives the new message.
abbrev pub input_label : MessageInput → Text → Bool → Text
input_label input name group =
    let media = first_media input.attachments in
    label input.type (if is_empty input.caption then input.text else input.caption) media.file_name
      media.duration name group (length input.attachments)
