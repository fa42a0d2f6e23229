-- ===== src/Tests/Chats.antt =====
-- The rules of chats, groups, messages and blocks at concrete inputs.
use chatwave_backend.Base.{
  ℕ, ◌≡◌, ◌≤◌, ◌↔◌, refl, arith, Bool, false, none, some, List, [], ◌∷◌, All, mem, ◌||◌, ◌+◌, ◌&&◌,
  not, is_some, if◌then◌else◌,
}
use chatwave_backend.Base.Text.{text}
use chatwave_backend.Schema.Block.{Block}
use chatwave_backend.Schema.Conversation.{
  Conversation, ConversationType, ConversationMember, MemberRole, admin, member,
}
use chatwave_backend.Schema.Message.{MessageReceipt, MessageReaction, ReceiptStatus}
use chatwave_backend.World.State.{World}
use chatwave_backend.Conversations.Rows.{
  admin_count, active_member, is_group_admin, unread_of, apply_unread_increment,
}
use chatwave_backend.Blocks.Queries.{is_blocked, is_blocked_by}
use chatwave_backend.Blocks.Restricted.{restricted_from, lookup_restricted}
use chatwave_backend.Blocks.Service.{create_block, delete_block}
use chatwave_backend.Blocks.Coherence.{
  IsCoherent, IsCoherent-kept, lookup_restricted-lem, restricted_from-is_blocked,
}
use chatwave_backend.Base.Rows.{find_row}
use chatwave_backend.World.Effects.{conversation_id}
use chatwave_backend.Conversations.Service.{delete_conversation}
use chatwave_backend.Groups.Deleting.{delete_conversation-admin_count}
use chatwave_backend.Groups.Service.{set_admin}
use chatwave_backend.Groups.Roles.{HasAdmin, set_admin-HasAdmin}
use chatwave_backend.Messages.Clean.{has_tag, strip_html-has_tag}
use chatwave_backend.Messages.Html.{strip_html}
use chatwave_backend.Messages.Receipts.{rank, status_of, ticks}
use chatwave_backend.Messages.Progress.{marked, mark_receipts-rises, IsSeenBy, ticks-seen}
use chatwave_backend.Messages.Reactions.{toggle}
use chatwave_backend.Messages.Toggling.{IsTidy, reacted, reacted-toggle, toggle-IsTidy}
use chatwave_backend.Conversations.Unread.{is_except, unread_of-apply_unread_increment}
use chatwave_backend.Tests.Calls.{env, viewer, lobby}

abbrev person : ℕ → MemberRole → ℕ → ConversationMember
person id role since = record {
  user = id;
  role = role;
  pinned = false;
  muted = false;
  archived = false;
  unread_count = 0;
  last_read_at = none;
  last_read_message = none;
  joined_at = since;
  left_at = none;
  removed_by = none;
}

abbrev band : Conversation
band = record {
  id = 11;
  type = ConversationType.group;
  name = text "Band";
  initials = text "BA";
  tone = text "a";
  photo = none;
  photo_public_id = none;
  created_by = 1;
  members = person 1 admin 0 ∷ person 2 member 50 ∷ person 3 member 20 ∷ [];
  last_message = none;
  last_message_sender = none;
  last_message_at = 0;
  preview = [];
  preview_icon = none;
  pair_key = none;
}

abbrev duo : Conversation
duo = record band { members = person 1 admin 0 ∷ person 2 admin 50 ∷ [] }

abbrev blocks : List Block
blocks = record { blocker = 1; blocked = 2 } ∷ record { blocker = 3; blocked = 1 } ∷ []

abbrev cached_world : World
cached_world = record lobby {
  blocks = blocks;
  restricted = record { user = 1; ids = 2 ∷ 3 ∷ []; expires_at = 20000 } ∷ [];
}

cached_world-IsCoherent : IsCoherent cached_world
unfolding restricted_from
cached_world-IsCoherent = (refl, tt)

IsCoherent-kept_example :
    IsCoherent (create_block 2 3 cached_world)
    × IsCoherent (delete_block 2 3 cached_world)
    × IsCoherent (lookup_restricted 2 cached_world).1
IsCoherent-kept_example = IsCoherent-kept 2 3 2 cached_world cached_world-IsCoherent

lookup_restricted_example :
    ((lookup_restricted 1 cached_world).0 ≡ restricted_from 1 blocks)
    × IsCoherent (lookup_restricted 1 cached_world).1
lookup_restricted_example = lookup_restricted-lem 1 cached_world cached_world-IsCoherent

restricted_from-is_blocked_example :
    (mem 3 (restricted_from 1 blocks) ≡ is_blocked env blocks 1 3)
    × (is_blocked env blocks 1 3 ≡ is_blocked env blocks 3 1)
    × (is_blocked env blocks 1 3 ≡ is_blocked_by env blocks 1 3 || is_blocked_by env blocks 3 1)
restricted_from-is_blocked_example =
    restricted_from-is_blocked env blocks 1 3 refl refl (λ e. absurd (omega arith))

strip_html-has_tag_example : has_tag (strip_html (text "a <<b>i</b>> 1 < 2")) ≡ false
strip_html-has_tag_example = strip_html-has_tag (text "a <<b>i</b>> 1 < 2")

abbrev receipts : List MessageReceipt
receipts =
    record { user = 1; status = ReceiptStatus.sent; at = 5 }
    ∷ record { user = 2; status = ReceiptStatus.delivered; at = 7 }
    ∷ []

mark_receipts-rises_example :
    (rank ReceiptStatus.seen ≤ rank (status_of (marked 9 2 ReceiptStatus.seen receipts) 2))
    × (rank (status_of receipts 2) ≤ rank (status_of (marked 9 2 ReceiptStatus.seen receipts) 2))
    × ((user : ℕ)
        → ¬ (user ≡ 2)
        → status_of (marked 9 2 ReceiptStatus.seen receipts) user ≡ status_of receipts user)
mark_receipts-rises_example = mark_receipts-rises 9 2 ReceiptStatus.seen receipts

ticks-seen_example :
    (ticks receipts (some 1) (1 ∷ 2 ∷ []) ≡ some ReceiptStatus.seen)
    ↔ All (IsSeenBy receipts) (2 ∷ [])
ticks-seen_example = ticks-seen receipts 1 2 [] (1 ∷ 2 ∷ []) refl

abbrev reactions : List MessageReaction
reactions =
    record { emoji = text "+"; users = 1 ∷ 2 ∷ [] }
    ∷ record { emoji = text "!"; users = 3 ∷ [] }
    ∷ []

reactions-IsTidy : IsTidy reactions
reactions-IsTidy =
    ((refl, (refl, tt)), ((refl, (refl, tt)), ((refl, tt), tt)), ((refl, tt), (tt, tt)))

reacted-toggle_example : reacted (text "!") 3 (toggle (text "!") 3 reactions) ≡ Bool.false
reacted-toggle_example = reacted-toggle (text "!") 3 reactions reactions-IsTidy

toggle-IsTidy_example : IsTidy (toggle (text "!") 3 reactions)
toggle-IsTidy_example = toggle-IsTidy (text "!") 3 reactions reactions-IsTidy

abbrev duo_world : World
duo_world = record lobby { conversations = duo ∷ [] }

set_admin-HasAdmin_example : HasAdmin 11 (set_admin env (viewer 1) 11 2 false duo_world).1
unfolding admin_count
set_admin-HasAdmin_example =
    (set_admin-HasAdmin 11 env (viewer 1) 11 2 false).apply duo_world (duo, refl, omega arith)

unread_of-apply_unread_increment_example : unread_of (apply_unread_increment band (some 1)) 2 ≡ (
    if is_some (active_member band 2) && not (is_except (some 1) 2)
    then unread_of band 2 + 1
    else unread_of band 2)
unread_of-apply_unread_increment_example = unread_of-apply_unread_increment band (some 1) 2

abbrev seven : ℕ
seven = 7

abbrev four : ℕ
four = 4

abbrev band_world : World
band_world = record lobby { conversations = band ∷ [] }

-- After user 1, its only admin, has deleted the group, it has no admin.
delete_conversation-admin_count_example :
    (left : Conversation) × (find_row conversation_id 11
        (delete_conversation env (viewer 1) 11 band_world).1.conversations
      ≡ some left)
    × (admin_count band ≡ admin_count left + 1)
unfolding is_group_admin active_member
delete_conversation-admin_count_example =
    delete_conversation-admin_count env (viewer 1) 11 band_world band refl refl refl
