-- ===== src/Tests/Calls.antt =====
-- The call handlers on a small world: two users in a direct chat, one of whose calls is over.
use chatwave_backend.Base.{ℕ, ◌%◌, ◌≡◌, refl, arith, true, false, none, some, List, [], ◌∷◌}
use chatwave_backend.Base.Rows.{find_row}
use chatwave_backend.Base.Text.{text, text_eq}
use chatwave_backend.Env.{Env}
use chatwave_backend.Schema.User.{User, UserStatus, Presence, AuthViewer}
use chatwave_backend.Schema.Settings.{StoredSettings}
use chatwave_backend.Schema.Conversation.{Conversation, ConversationType}
use chatwave_backend.Schema.Call.{Call, CallStatus, CallType, CallDirection, IcePath}
use chatwave_backend.World.State.{World}
use chatwave_backend.World.Effects.{call_id}
use chatwave_backend.Conversations.Rows.{member_doc}
use chatwave_backend.Calls.Lifecycle.{IsFrozen}
use chatwave_backend.Calls.Tracks.{IsGood, Evolves}
use chatwave_backend.Calls.Run.{
  Request, start_call, accept_call, decline_call, end_call, join_room, disconnect, sweep, wait, run,
  run-IsGood, run-Evolves, run-IsFrozen,
}

abbrev pub env : Env
env = record {
  is_valid_object_id = λ id. true;
  object_id_string = λ id. id;
  ring_timeout_ms = 45000;
  clock = λ t. text "9:41";
  upper = λ s. s;
  lower = λ s. s;
  random_below = λ seed bound. seed % bound;
  random_hex = λ seed n. text "a1b2";
  time_suffix = λ t. text "m2k9x0ab";
  bcrypt_hash = λ password salt. password;
  bcrypt_compare = λ password hash. text_eq password hash;
  id_text = λ id. text "0";
  jwt_verify = λ token. some (1, token);
}

abbrev pub no_settings : StoredSettings
no_settings = record {
  theme = none;
  reduce_motion = none;
  message_notifications = none;
  notification_sounds = none;
  missed_call_emails = none;
  unread_digest = none;
  read_receipts = none;
  show_last_seen = none;
  video_quality = none;
  noise_suppression = none;
  auto_download = none;
  sound_favorites = none;
}

abbrev pub user : ℕ → User
user id = record {
  id = id;
  name = text "Ann";
  email = text "ann@chat.wave";
  username = text "ann";
  password_hash = some (text "secret");
  initials = text "AN";
  tone = text "a";
  photo_url = none;
  photo_public_id = none;
  role = [];
  location = [];
  is_owner = false;
  presence = Presence.offline;
  last_seen_at = none;
  status = UserStatus.active;
  deleted_at = none;
  google_id = none;
  github_id = none;
  email_verified_at = none;
  settings = no_settings;
  created_at = 0;
}

abbrev pub chat : Conversation
chat = record {
  id = 10;
  type = ConversationType.direct;
  name = [];
  initials = [];
  tone = [];
  photo = none;
  photo_public_id = none;
  created_by = 1;
  members =
      member_doc 1 chatwave_backend.Schema.Conversation.MemberRole.member 0
      ∷ member_doc 2 chatwave_backend.Schema.Conversation.MemberRole.member 0
      ∷ [];
  last_message = none;
  last_message_sender = none;
  last_message_at = 0;
  preview = [];
  preview_icon = none;
  pair_key = some (text "1:2");
}

abbrev pub old_call : Call
old_call = record {
  id = 20;
  conversation = 10;
  type = CallType.audio;
  status = CallStatus.ended;
  initiated_by = 2;
  participants =
      record {
        user = 2;
        direction = CallDirection.outgoing;
        joined_at = some 100;
        left_at = some 9000;
      }
      ∷ record {
        user = 1;
        direction = CallDirection.incoming;
        joined_at = some 3000;
        left_at = some 9000;
      }
      ∷ [];
  duration_sec = 6;
  ice = IcePath.p2p;
  started_at = 100;
  answered_at = some 3000;
  ended_at = some 9000;
  ended_by = some 1;
}

abbrev pub lobby : World
lobby = record {
  now = 10000;
  next_id = 30;
  users = user 1 ∷ user 2 ∷ [];
  conversations = chat ∷ [];
  messages = [];
  calls = old_call ∷ [];
  blocks = [];
  contacts = [];
  restricted = [];
  call_busy = [];
  call_ring = [];
  rates = [];
  sessions = record { keys = []; sets = [] };
  presences = record { live = []; online = []; claims = [] };
  otps = [];
  otp_counts = [];
  delete_tokens = [];
  oauth_links = [];
  authz = [];
  sockets = [];
  digests = [];
  digest_pending = [];
  notify_rates = [];
  notifications = [];
  audits = [];
  outbox = [];
}

lobby-IsGood : IsGood lobby
lobby-IsGood = record {
  unique = (tt, tt);
  bounded = (omega arith, tt);
  valid = ((refl, refl, (refl, (refl, tt))), tt);
  exclusive = (tt, tt);
}

abbrev pub viewer : ℕ → AuthViewer
viewer id = record { id = id; is_owner = false }

-- User 1 calls, user 2 answers and joins, user 1 loses the connection, and both call again at once.
abbrev evening : List Request
evening =
    start_call (viewer 1) 10 CallType.video
    ∷ wait 2000
    ∷ accept_call (viewer 2) 30
    ∷ join_room 30 2
    ∷ wait 61000
    ∷ disconnect 1
    ∷ start_call (viewer 1) 10 CallType.audio
    ∷ start_call (viewer 2) 10 CallType.audio
    ∷ decline_call (viewer 1) 32
    ∷ end_call (viewer 1) 20 none
    ∷ wait 50000
    ∷ sweep
    ∷ []

run-IsGood_example : IsGood (run env evening lobby)
run-IsGood_example = run-IsGood env evening lobby lobby-IsGood

run-Evolves_example : Evolves lobby.calls (run env evening lobby).calls
run-Evolves_example = run-Evolves env evening lobby lobby-IsGood

run-IsFrozen_example :
    (s : Call) × (find_row call_id 20 (run env evening lobby).calls ≡ some s) × IsFrozen old_call s
run-IsFrozen_example = run-IsFrozen env evening lobby 20 old_call lobby-IsGood refl refl
