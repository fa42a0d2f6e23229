-- ===== src/Conversations/Preview.antt =====
-- `viewerPreview` and `pairKey` of src/conversations/conversations.constants.ts.
use chatwave_backend.Base.{
  ℕ, ◌+◌, ◌≡◌, refl, sym, ap, ◌∙◌, ◌⊎◌, inl, inr, Bool, true, false, ◌&&◌, ◌||◌, not, Option, none,
  some, List, [], ◌∷◌, ◌++◌, arith, ltb, leb, ◌==◌, if◌then◌else◌, Bool-cases, Option-cases,
}
use chatwave_backend.Base.Text.{Text, text, text_ltb, is_empty}
use chatwave_backend.Env.{Env}

-- `s.indexOf(': ')`
unfoldable pub colon_index : Text → Option ℕ
colon_index [] = none
colon_index (c ∷ []) = none
colon_index (c ∷ d ∷ s) =
    if c == b':' && d == b' '
    then some 0
    else elim (colon_index (d ∷ s)) [ none ↦ none | some i ↦ some (i + 1) ]

-- `s.slice(n)`
abbrev pub drop : ℕ → Text → Text
drop n [] = []
drop chatwave_backend.Base.zero (c ∷ s) = c ∷ s
drop (chatwave_backend.Base.suc n) (c ∷ s) = drop n s

abbrev lower : ℕ → ℕ
lower c = if leb b'A' c && leb c b'Z' then c + 32 else c

-- `\w`
abbrev is_word : ℕ → Bool
is_word c = (leb b'a' (lower c) && leb (lower c) b'z') || (leb b'0' c && leb c b'9') || c == b'_'

abbrev ends_word : Text → Bool
ends_word [] = true
ends_word (c ∷ s) = not (is_word c)

-- `/^you\b/i.test(s)`
unfoldable pub starts_with_you : Text → Bool
starts_with_you (a ∷ b ∷ c ∷ s) =
    lower a == b'y' && lower b == b'o' && lower c == b'u' && ends_word s
starts_with_you _ = false

abbrev is_name_end : Option ℕ → Bool
is_name_end none = false
is_name_end (some i) = ltb 0 i && ltb i 48

abbrev or_zero : Option ℕ → ℕ
or_zero none = 0
or_zero (some i) = i

unfoldable pub own_preview : Text → Text
unfolding colon_index starts_with_you
own_preview preview =
    let colon = colon_index preview in
    if is_name_end colon
    then text "You: " ++ drop (or_zero colon + 2) preview
    else if starts_with_you preview
    then preview
    else text "You: " ++ preview

abbrev is_sender : Option ℕ → ℕ → Bool
is_sender none viewer = false
is_sender (some s) viewer = s == viewer

unfoldable pub viewer_preview : Text → Option ℕ → ℕ → Text
viewer_preview preview sender viewer =
    if is_empty preview
    then []
    else if is_sender sender viewer
    then own_preview preview
    else preview

own_preview-you : (s : Text) → own_preview (text "You: " ++ s) ≡ text "You: " ++ s
unfolding own_preview
own_preview-you [] = refl
own_preview-you (c ∷ s) = refl

own_preview-cases :
    (s : Text) → (own_preview s ≡ s) ⊎ ((t : Text) × (own_preview s ≡ text "You: " ++ t))
unfolding own_preview
own_preview-cases s = elim (Bool-cases (is_name_end (colon_index s))) [
  | inl e ↦ inr (drop (or_zero (colon_index s) + 2) s, rw e)
  | inr e ↦ elim (Bool-cases (starts_with_you s)) [
    | inl f ↦ inl (rw (e, f))
    | inr f ↦ inr (s, rw (e, f))
  ]
]

own_preview_idem : (s : Text) → own_preview (own_preview s) ≡ own_preview s
own_preview_idem s = elim (own_preview-cases s) [
  | inl e ↦ ap own_preview e
  | inr (t, e) ↦ ap own_preview e ∙ own_preview-you t ∙ sym e
]

empty_or_self : (u : Text) → (if is_empty u then [] else u) ≡ u
empty_or_self [] = refl
empty_or_self (c ∷ u) = refl

-- A preview that is rewritten for a viewer is left alone by a second rewriting for the same viewer,
-- whoever sent the last message.
viewer_preview_idem :
    (preview : Text) (sender : Option ℕ) (viewer : ℕ)
    → viewer_preview (viewer_preview preview sender viewer) sender viewer
      ≡ viewer_preview preview sender viewer
unfolding viewer_preview
viewer_preview_idem [] sender viewer = refl
viewer_preview_idem (c ∷ s) sender viewer = elim (Bool-cases (is_sender sender viewer)) [
  | inl e ↦ rw e (rw own_preview_idem (empty_or_self (own_preview (c ∷ s))))
  | inr e ↦ rw e
]

-- `[s, t].sort().join(':')`
abbrev pub joined : Text → Text → Text
joined s t = if text_ltb t s then t ++ 58 ∷ s else s ++ 58 ∷ t

abbrev pub pair_key : Env → ℕ → ℕ → Text
pair_key env a b = joined (env.id_text a) (env.id_text b)
