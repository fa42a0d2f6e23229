-- ===== src/Auth/Devices.antt =====
-- What src/auth/auth.constants.ts reads off a request: the platform, the browser, the masked address.
use chatwave_backend.Base.{
  ℕ, Bool, true, false, ◌&&◌, ◌||◌, not, Option, none, some, [], ◌∷◌, ◌++◌, leb, ◌==◌,
  if◌then◌else◌, or_else,
}
use chatwave_backend.Base.Text.{Text, text, is_empty, trim}
use chatwave_backend.Env.{Env}
use chatwave_backend.Schema.Session.{SessionPlatform, web, android, ios}

-- `s.startsWith(t)`
abbrev pub starts_with : Text → Text → Bool
starts_with s [] = true
starts_with [] (d ∷ t) = false
starts_with (c ∷ s) (d ∷ t) = c == d && starts_with s t

-- `s.includes(t)`
abbrev pub includes : Text → Text → Bool
includes [] t = starts_with [] t
includes (c ∷ s) t = starts_with (c ∷ s) t || includes s t

unfoldable pub detect_platform : Env → Text → SessionPlatform
detect_platform env ua =
    let value = env.lower ua in
    if includes value (text "android")
    then android
    else if includes value (text "iphone")
        || includes value (text "ipad")
        || includes value (text "ios")
    then ios
    else web

unfoldable pub browser_name : Env → Text → Text
browser_name env ua =
    let value = env.lower ua in
    if includes value (text "edg/")
    then text "Edge"
    else if includes value (text "chrome/") || includes value (text "crios/")
    then text "Chrome"
    else if includes value (text "firefox/") || includes value (text "fxios/")
    then text "Firefox"
    else if includes value (text "safari/") && not (includes value (text "chrome"))
    then text "Safari"
    else text "ChatWave"

unfoldable pub os_name : Env → Text → Text
os_name env ua =
    let value = env.lower ua in
    if includes value (text "android")
    then text "Android"
    else if includes value (text "iphone")
        || includes value (text "ipad")
        || includes value (text "ios")
    then text "iOS"
    else if includes value (text "mac os")
    then text "macOS"
    else if includes value (text "windows")
    then text "Windows"
    else if includes value (text "linux")
    then text "Linux"
    else text "Web"

unfoldable pub device_label : Env → Text → SessionPlatform → Text
unfolding browser_name os_name
device_label env ua android = text "ChatWave on Android"
device_label env ua ios = text "ChatWave on iOS"
device_label env ua web = browser_name env ua ++ text " on " ++ os_name env ua

abbrev is_digit : ℕ → Bool
is_digit c = leb b'0' c && leb c b'9'

-- `[0-9a-f]` with the flag `i`
abbrev is_hex : ℕ → Bool
is_hex c = is_digit c || (leb b'a' c && leb c b'f') || (leb b'A' c && leb c b'F')

-- All of the text is matched, and it is not empty.
abbrev all_of : (ℕ → Bool) → Text → Bool
all_of p [] = false
all_of p (c ∷ []) = p c
all_of p (c ∷ d ∷ s) = p c && all_of p (d ∷ s)

-- `.replace(/[0-9a-f]+$/i, 'x')`
unfoldable pub mask_hex : Text → Text
mask_hex [] = []
mask_hex (c ∷ s) = let rest = mask_hex s in if all_of is_hex (c ∷ s) then text "x" else c ∷ rest

-- `.replace(/\.\d+$/, '.x')`
unfoldable pub mask_digits : Text → Text
mask_digits [] = []
mask_digits (c ∷ s) =
    let rest = mask_digits s in if c == b'.' && all_of is_digit s then text ".x" else c ∷ rest

unfoldable pub mask_ip : Text → Text
mask_ip ip =
    if is_empty ip then [] else if includes ip (text ":") then mask_hex ip else mask_digits ip

-- `.split(',')[0]`
abbrev before_comma : Text → Text
before_comma [] = []
before_comma (c ∷ s) = if c == b',' then [] else c ∷ before_comma s

-- `x || y` on strings
abbrev pub or_text : Text → Text → Text
or_text [] y = y
or_text (c ∷ x) y = c ∷ x

-- The forwarded header is `none` where it is no string.
unfoldable pub client_ip : Option Text → Option Text → Text
client_ip ip none = or_else ip []
client_ip ip (some forwarded) =
    if is_empty (trim forwarded)
    then or_else ip []
    else or_text (trim (before_comma forwarded)) (or_else ip [])
