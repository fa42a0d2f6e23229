-- ===== src/Schema/Settings.antt =====
-- The types of src/settings/settings.constants.ts. `StoredSettings` is what a user row holds, where any
-- field may be missing, and also the patch that `update` takes.
use chatwave_backend.Base.{Bool, Option}
use chatwave_backend.Base.Text.{Text}

pub data Theme : Type 0 where
  light dark system : Theme

pub data VideoQuality : Type 0 where
  auto p720 p1080 : VideoQuality

pub data SoundEvent : Type 0 where
  send typing notify incoming call_start call_end delete : SoundEvent

-- `Record<SoundEvent, string>`
pub record SoundFavorites : Type 0 where
  pub send : Text
  pub typing : Text
  pub notify : Text
  pub incoming : Text
  pub call_start : Text
  pub call_end : Text
  pub delete : Text

-- `Partial<SoundFavorites>`
pub record StoredFavorites : Type 0 where
  pub send : Option (Option Text)
  pub typing : Option (Option Text)
  pub notify : Option (Option Text)
  pub incoming : Option (Option Text)
  pub call_start : Option (Option Text)
  pub call_end : Option (Option Text)
  pub delete : Option (Option Text)

-- `SoundFavoritesDto` of src/settings/settings.dto.ts: a field that the request left out is undefined.
pub record FavoritesDto : Type 0 where
  pub send : Option Text
  pub typing : Option Text
  pub notify : Option Text
  pub incoming : Option Text
  pub call_start : Option Text
  pub call_end : Option Text
  pub delete : Option Text

pub record UserSettings : Type 0 where
  pub theme : Theme
  pub reduce_motion : Bool
  pub message_notifications : Bool
  pub notification_sounds : Bool
  pub missed_call_emails : Bool
  pub unread_digest : Bool
  pub read_receipts : Bool
  pub show_last_seen : Bool
  pub video_quality : VideoQuality
  pub noise_suppression : Bool
  pub auto_download : Bool
  pub sound_favorites : SoundFavorites

pub record StoredSettings : Type 0 where
  pub theme : Option Theme
  pub reduce_motion : Option Bool
  pub message_notifications : Option Bool
  pub notification_sounds : Option Bool
  pub missed_call_emails : Option Bool
  pub unread_digest : Option Bool
  pub read_receipts : Option Bool
  pub show_last_seen : Option Bool
  pub video_quality : Option VideoQuality
  pub noise_suppression : Option Bool
  pub auto_download : Option Bool
  pub sound_favorites : Option StoredFavorites
