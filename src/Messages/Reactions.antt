-- ===== src/Messages/Reactions.antt =====
-- The reactions of a message: the toggle in `toggleReaction` of src/messages/messages.service.ts.
use chatwave_backend.Base.{
  ℕ, Bool, true, false, ◌||◌, not, List, [], ◌∷◌, ◌++◌, ltb, ◌==◌, if◌then◌else◌, filter, any, mem,
  update_first, length,
}
use chatwave_backend.Base.Text.{Text, text_eq, is_empty}
use chatwave_backend.Schema.Message.{MessageReaction}

-- `users.splice(i, 1)` at the first index of the user
abbrev pub erase : ℕ → List ℕ → List ℕ
erase user [] = []
erase user (u ∷ us) = if u == user then us else u ∷ erase user us

abbrev pub has_emoji : Text → MessageReaction → Bool
has_emoji value r = text_eq r.emoji value

abbrev pub no_users : List ℕ → Bool
no_users [] = true
no_users (u ∷ us) = false

abbrev pub has_users : MessageReaction → Bool
has_users r = not (no_users r.users)

unfoldable pub toggle_user : ℕ → MessageReaction → MessageReaction
toggle_user user r = record r {
  users = if mem user r.users then erase user r.users else r.users ++ user ∷ [];
}

unfoldable pub toggle : Text → ℕ → List MessageReaction → List MessageReaction
unfolding toggle_user
toggle value user rs =
    if any (has_emoji value) rs
    then filter has_users (update_first (has_emoji value) (toggle_user user) rs)
    else rs ++ record { emoji = value; users = user ∷ [] } ∷ []

-- `!value || value.length > 8 || /[<>]/.test(value)`
unfoldable pub is_bad_emoji : Text → Bool
is_bad_emoji value =
    is_empty value || ltb 8 (length value) || any (λ c. c == b'<' || c == b'>') value
