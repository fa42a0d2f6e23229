-- ===== src/Contacts/Notes.antt =====
-- `derivedNote` and `lastSeenLine` of src/contacts/contacts.constants.ts. `month_day` is the date that
-- `toLocaleDateString` writes.
use chatwave_backend.Base.{
  ℕ, ◌-◌, ◌/◌, Option, none, some, List, [], ◌∷◌, ◌++◌, ltb, ◌==◌, if◌then◌else◌,
}
use chatwave_backend.Base.Text.{Text, text, trim}
use chatwave_backend.Schema.User.{Presence, online, away, offline}
use chatwave_backend.Messages.Labels.{decimal}
use chatwave_backend.Users.Profiles.{PublicUser, filled_texts}

abbrev pub joined : List Text → Text
joined [] = []
joined (t ∷ []) = t
joined (t ∷ u ∷ ts) = t ++ 32 ∷ 183 ∷ 32 ∷ joined (u ∷ ts)

abbrev pub or_label : Text → Text → Text
or_label [] t = t
or_label (c ∷ s) t = c ∷ s

module _ (month_day : ℕ → Text) where
  unfoldable pub last_seen_line : ℕ → Option ℕ → Text
  last_seen_line now none = text "Offline"
  last_seen_line now (some at) =
      let delta = now - at in
      let days = delta / 86400000 in
      if ltb delta 60000
      then text "Last seen just now"
      else if ltb delta 3600000
      then text "Last seen " ++ decimal (delta / 60000) ++ text "m ago"
      else if ltb delta 86400000
      then text "Last seen " ++ decimal (delta / 3600000) ++ text "h ago"
      else if days == 1
      then text "Last seen yesterday"
      else if ltb days 7
      then text "Last seen " ++ decimal days ++ text " days ago"
      else text "Last seen " ++ month_day at

  abbrev note_of : ℕ → PublicUser → Presence → Text
  note_of now person online =
      or_label (joined (filled_texts (person.role ∷ person.location ∷ []))) (text "Online")
  note_of now person away = or_label (trim person.role) (text "Away")
  note_of now person offline = last_seen_line now person.last_seen_at

  unfoldable pub derived_note : ℕ → Text → PublicUser → Presence → Text
  derived_note now saved person presence = or_label (trim saved) (note_of now person presence)
