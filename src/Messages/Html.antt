-- ===== src/Messages/Html.antt =====
-- `stripHtml` of src/messages/messages.constants.ts, one function for each of its three steps.
use chatwave_backend.Base.{Bool, true, false, ◌&&◌, ◌||◌, [], ◌∷◌, ◌==◌, if◌then◌else◌}
use chatwave_backend.Base.Text.{Text, is_space, trim}

abbrev pub has_close : Text → Bool
has_close [] = false
has_close (c ∷ s) = c == b'>' || has_close s

-- `.replace(/<[^>]*>/g, '')`; the first argument tells whether the walk is inside a match.
unfoldable pub remove_tags : Bool → Text → Text
remove_tags inside [] = []
remove_tags true (c ∷ s) =
    let skip = remove_tags true s in
    let done = remove_tags false s in if c == b'>' then done else skip
remove_tags false (c ∷ s) =
    let skip = remove_tags true s in
    let keep = remove_tags false s in if c == b'<' && has_close s then skip else c ∷ keep

-- `.replace(/\s+/g, ' ')`; the first argument tells whether the last unit was white space.
unfoldable pub collapse : Bool → Text → Text
collapse spaced [] = []
collapse spaced (c ∷ s) =
    let more = collapse true s in
    let rest = collapse false s in
    if is_space c then (if spaced then more else 32 ∷ more) else c ∷ rest

unfoldable pub strip_html : Text → Text
strip_html value = trim (collapse false (remove_tags false value))
