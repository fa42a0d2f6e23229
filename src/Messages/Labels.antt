-- ===== src/Messages/Labels.antt =====
-- The previews of messages: `duration`, `snippet`, `label` and `icon` of
-- src/messages/messages.service.ts, and decimal numbers in a text.
use chatwave_backend.Base.{
  ℕ, suc, zero, ◌+◌, ◌/◌, ◌%◌, Bool, true, false, ◌||◌, not, Option, none, some, [], ◌∷◌, ◌++◌, ltb,
  ◌==◌, if◌then◌else◌, take, length,
}
use chatwave_backend.Base.Text.{Text, text, is_empty, trim}
use chatwave_backend.Messages.Html.{collapse}
use chatwave_backend.Schema.Conversation.{PreviewIcon, mic, video, image}
use chatwave_backend.Schema.Message.{MessageType, file, voice, video_note, system, call}

-- `String(n)`: the digits from the last one, with fuel for the count of the digits
unfoldable pub digits_from : ℕ → ℕ → Text → Text
digits_from zero n acc = acc
digits_from (suc fuel) n acc =
    let more = digits_from fuel (n / 10) ((48 + n % 10) ∷ acc) in
    if ltb n 10 then (48 + n) ∷ acc else more

unfoldable pub decimal : ℕ → Text
unfolding digits_from
decimal n = digits_from (suc n) n []

-- `String(n).padStart(2, '0')`
unfoldable pub pad_two : ℕ → Text
pad_two n = if ltb n 10 then b'0' ∷ decimal n else decimal n

-- `duration` and `mmss`: the seconds are whole and not negative
unfoldable pub mmss : ℕ → Text
mmss seconds = decimal (seconds / 60) ++ b':' ∷ pad_two (seconds % 60)

abbrev counted : ℕ → Text → Text
counted n word = decimal n ++ word

abbrev or_text : Text → Text → Text
or_text s default = if is_empty s then default else s

abbrev clipped : Text → Text
clipped value = if ltb 80 (length value) then take 79 value ++ 8230 ∷ [] else value

-- `snippet` of one item that is no call
unfoldable pub single_label : MessageType → Text → Text → ℕ → Text
unfolding mmss
single_label voice body file_name seconds = text "Voice message · " ++ mmss seconds
single_label video_note body file_name seconds = text "Video note · " ++ mmss seconds
single_label MessageType.video body file_name seconds =
    if seconds == 0 then text "Video" else text "Video · " ++ mmss seconds
single_label MessageType.image body file_name seconds = text "Photo"
single_label file body file_name seconds = or_text file_name (text "File")
single_label _ body file_name seconds =
    clipped (trim (collapse false (or_text body (text "Message"))))

-- A missing count is 1, a missing duration 0.
unfoldable pub snippet : MessageType → Text → Text → ℕ → ℕ → Text
snippet call body file_name seconds count = or_text body (text "Call")
snippet MessageType.image body file_name seconds count =
    if ltb 1 count then counted count (text " photos") else text "Photo"
snippet type body file_name seconds count =
    if ltb 1 count then counted count (text " files") else single_label type body file_name seconds

abbrev is_system : MessageType → Bool
is_system system = true
is_system _ = false

unfoldable pub label : MessageType → Text → Text → ℕ → Text → Bool → ℕ → Text
label type body file_name seconds sender group count =
    let value = snippet type body file_name seconds count in
    if is_system type || not group then value else sender ++ text ": " ++ value

unfoldable pub icon : MessageType → Option PreviewIcon
icon voice = some mic
icon video_note = some video
icon MessageType.video = some video
icon MessageType.image = some image
icon _ = none
