-- ===== src/Settings/Merge.antt =====
-- `mergeSettings` and the sounds of src/settings/settings.constants.ts.
use chatwave_backend.Base.{
  Bool, true, false, ◌&&◌, Option, none, some, List, [], ◌∷◌, ◌++◌, or_else, any,
}
use chatwave_backend.Base.Text.{Text, text, text_eq}
use chatwave_backend.Schema.Settings.{
  Theme, VideoQuality, SoundEvent, send, typing, notify, incoming, call_start, call_end, delete,
  SoundFavorites, StoredFavorites, FavoritesDto, UserSettings, StoredSettings,
}

abbrev pub sound_off : Text
sound_off = text "off"

-- The ids of `SOUND_OPTIONS[event]`.
unfoldable pub sound_options : SoundEvent → List Text
sound_options send = text "pop" ∷ text "soft" ∷ text "click" ∷ text "bubble" ∷ []
sound_options typing = text "tick" ∷ text "soft" ∷ text "knock" ∷ []
sound_options notify = text "chime" ∷ text "ping" ∷ text "bell" ∷ text "marimba" ∷ []
sound_options incoming = text "classic" ∷ text "bright" ∷ text "soft" ∷ text "pulse" ∷ []
sound_options call_start = text "sweep" ∷ text "rise" ∷ text "chirp" ∷ text "fanfare" ∷ []
sound_options call_end = text "drop" ∷ text "fade" ∷ text "click" ∷ text "low" ∷ []
sound_options delete = text "thud" ∷ text "snap" ∷ text "whoosh" ∷ []

unfoldable pub allowed_sounds : SoundEvent → List Text
allowed_sounds event = sound_options event ++ sound_off ∷ []

unfoldable pub sound_defaults : SoundFavorites
sound_defaults = record {
  send = text "pop";
  typing = text "tick";
  notify = text "chime";
  incoming = text "classic";
  call_start = text "sweep";
  call_end = text "drop";
  delete = text "thud";
}

-- `favorites[event]`
abbrev pub favorite : SoundFavorites → SoundEvent → Text
favorite f send = f.send
favorite f typing = f.typing
favorite f notify = f.notify
favorite f incoming = f.incoming
favorite f call_start = f.call_start
favorite f call_end = f.call_end
favorite f delete = f.delete

abbrev no_favorites : StoredFavorites
no_favorites = record {
  send = none;
  typing = none;
  notify = none;
  incoming = none;
  call_start = none;
  call_end = none;
  delete = none;
}

-- The later of two values that may be missing, and the default.
abbrev pub pick {ℓ} : {A : Type ℓ} → Option A → Option A → A → A
pick patch current default = or_else patch (or_else current default)

-- A key of the object that has both spread into it. `none` is a key that is missing, `some none` one
-- with a value that is no string.
unfoldable pub pick_favorite : Option (Option Text) → Option (Option Text) → Text → Text
pick_favorite (some (some s)) current default = s
pick_favorite (some none) current default = default
pick_favorite none (some (some s)) default = s
pick_favorite none _ default = default

unfoldable pub merge_favorites : Option StoredFavorites → Option StoredFavorites → SoundFavorites
unfolding sound_defaults pick_favorite
merge_favorites current patch =
    let cur = or_else current no_favorites in
    let next = or_else patch no_favorites in
    record {
      send = pick_favorite next.send cur.send sound_defaults.send;
      typing = pick_favorite next.typing cur.typing sound_defaults.typing;
      notify = pick_favorite next.notify cur.notify sound_defaults.notify;
      incoming = pick_favorite next.incoming cur.incoming sound_defaults.incoming;
      call_start = pick_favorite next.call_start cur.call_start sound_defaults.call_start;
      call_end = pick_favorite next.call_end cur.call_end sound_defaults.call_end;
      delete = pick_favorite next.delete cur.delete sound_defaults.delete;
    }

unfoldable pub merge_settings : StoredSettings → StoredSettings → UserSettings
unfolding merge_favorites
merge_settings src next = record {
  theme = pick next.theme src.theme Theme.system;
  reduce_motion = pick next.reduce_motion src.reduce_motion false;
  message_notifications = pick next.message_notifications src.message_notifications true;
  notification_sounds = pick next.notification_sounds src.notification_sounds true;
  missed_call_emails = pick next.missed_call_emails src.missed_call_emails true;
  unread_digest = pick next.unread_digest src.unread_digest false;
  read_receipts = pick next.read_receipts src.read_receipts true;
  show_last_seen = pick next.show_last_seen src.show_last_seen true;
  video_quality = pick next.video_quality src.video_quality VideoQuality.p720;
  noise_suppression = pick next.noise_suppression src.noise_suppression true;
  auto_download = pick next.auto_download src.auto_download false;
  sound_favorites = merge_favorites src.sound_favorites next.sound_favorites;
}

abbrev stored_favorites : SoundFavorites → StoredFavorites
stored_favorites f = record {
  send = some (some f.send);
  typing = some (some f.typing);
  notify = some (some f.notify);
  incoming = some (some f.incoming);
  call_start = some (some f.call_start);
  call_end = some (some f.call_end);
  delete = some (some f.delete);
}

-- `row.settings = settings`
unfoldable pub stored : UserSettings → StoredSettings
stored s = record {
  theme = some s.theme;
  reduce_motion = some s.reduce_motion;
  message_notifications = some s.message_notifications;
  notification_sounds = some s.notification_sounds;
  missed_call_emails = some s.missed_call_emails;
  unread_digest = some s.unread_digest;
  read_receipts = some s.read_receipts;
  show_last_seen = some s.show_last_seen;
  video_quality = some s.video_quality;
  noise_suppression = some s.noise_suppression;
  auto_download = some s.auto_download;
  sound_favorites = some (stored_favorites s.sound_favorites);
}

abbrev pub no_settings : StoredSettings
no_settings = record {
  theme = none;
  reduce_motion = none;
  message_notifications = none;
  notification_sounds = none;
  missed_call_emails = none;
  unread_digest = none;
  read_receipts = none;
  show_last_seen = none;
  video_quality = none;
  noise_suppression = none;
  auto_download = none;
  sound_favorites = none;
}

-- `{ ...SETTINGS_DEFAULTS }`
unfoldable pub default_settings : StoredSettings
unfolding stored merge_settings
default_settings = stored (merge_settings no_settings no_settings)

abbrev is_allowed : SoundFavorites → SoundEvent → Bool
is_allowed f event = any (text_eq (favorite f event)) (allowed_sounds event)

-- `SOUND_EVENTS.every(…)` of `assertFavorites`
unfoldable pub are_allowed : SoundFavorites → Bool
are_allowed f =
    is_allowed f send
    && is_allowed f notify
    && is_allowed f incoming
    && is_allowed f call_start
    && is_allowed f call_end
    && is_allowed f typing
    && is_allowed f delete

-- A field of a class is an own key of each of its instances (the target is ES2023), and class-transformer
-- leaves one that the request left out undefined.
unfoldable pub dto_favorites : FavoritesDto → StoredFavorites
dto_favorites dto = record {
  send = some dto.send;
  typing = some dto.typing;
  notify = some dto.notify;
  incoming = some dto.incoming;
  call_start = some dto.call_start;
  call_end = some dto.call_end;
  delete = some dto.delete;
}
