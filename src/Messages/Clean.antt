-- ===== src/Messages/Clean.antt =====
-- What `stripHtml` of src/messages/messages.constants.ts leaves.
use chatwave_backend.Base.{
  ℕ, ◌≡◌, refl, Bool, true, false, ◌&&◌, ◌||◌, [], ◌∷◌, ◌==◌, arith, Bool-cases, inl, inr,
}
use chatwave_backend.Base.Text.{Text, is_space, trim, trim_left, trim_right, cons_trimmed}
use chatwave_backend.Messages.Html.{has_close, remove_tags, collapse, strip_html}

-- A `<` with a `>` somewhere behind it.
abbrev pub has_tag : Text → Bool
has_tag [] = false
has_tag (c ∷ s) = (c == b'<' && has_close s) || has_tag s

remove_tags-close :
    (inside : Bool) (s : Text) → has_close (remove_tags inside s) ≡ true → has_close s ≡ true
unfolding remove_tags
remove_tags-close inside [] h = h
remove_tags-close true (c ∷ s) h =
    ground (arith, remove_tags-close true s, remove_tags-close false s)
remove_tags-close false (c ∷ s) h =
    ground (arith, remove_tags-close true s, remove_tags-close false s)

remove_tags-tag : (inside : Bool) (s : Text) → has_tag (remove_tags inside s) ≡ false
unfolding remove_tags
remove_tags-tag inside [] = refl
remove_tags-tag true (c ∷ s) = ground (arith, remove_tags-tag true s, remove_tags-tag false s)
remove_tags-tag false (c ∷ s) =
    ground (arith, remove_tags-tag true s, remove_tags-tag false s, remove_tags-close false s)

collapse-close :
    (spaced : Bool) (s : Text) → has_close (collapse spaced s) ≡ true → has_close s ≡ true
unfolding collapse
collapse-close spaced [] h = h
collapse-close spaced (c ∷ s) h = elim (Bool-cases (is_space c)) [
  | inl e ↦
      elim spaced as (λ b. has_close (collapse b (c ∷ s)) ≡ true → has_close (c ∷ s) ≡ true) [
        | true ↦ λ k. tail (has_close (collapse true s)) (collapse-close true s) (rw e at k)
        | false ↦ λ k. tail (has_close (collapse true s)) (collapse-close true s) (rw e at k)
      ]
        h
  | inr e ↦ same (has_close (collapse false s)) (collapse-close false s) (rw e at h)
]
  where
    tail : (b : Bool) → (b ≡ true → has_close s ≡ true) → b ≡ true → c == b'>' || has_close s ≡ true
    tail b f k = ground arith

    same :
        (b : Bool)
        → (b ≡ true → has_close s ≡ true)
        → c == b'>' || b ≡ true
        → c == b'>' || has_close s ≡ true
    same b f k = ground arith

collapse-tag : (spaced : Bool) (s : Text) → has_tag s ≡ false → has_tag (collapse spaced s) ≡ false
unfolding collapse
collapse-tag spaced [] h = h
collapse-tag spaced (c ∷ s) h =
    ground (arith, collapse-tag true s, collapse-tag false s, collapse-close false s)

trim_left-tag : (s : Text) → has_tag s ≡ false → has_tag (trim_left s) ≡ false
trim_left-tag [] h = h
trim_left-tag (c ∷ s) h = ground (arith, trim_left-tag s)

cons_trimmed-close :
    (c : ℕ) (s : Text) → has_close (cons_trimmed c s) ≡ true → c == b'>' || has_close s ≡ true
cons_trimmed-close c [] h = ground arith
cons_trimmed-close c (d ∷ s) h = h

trim_right-close : (s : Text) → has_close (trim_right s) ≡ true → has_close s ≡ true
trim_right-close [] h = h
trim_right-close (c ∷ s) h = ground (arith, cons_trimmed-close c (trim_right s), trim_right-close s)

cons_trimmed-tag :
    (c : ℕ) (s : Text)
    → (c == b'<' && has_close s) || has_tag s ≡ false
    → has_tag (cons_trimmed c s) ≡ false
cons_trimmed-tag c [] h = ground arith
cons_trimmed-tag c (d ∷ s) h = h

trim_right-tag : (s : Text) → has_tag s ≡ false → has_tag (trim_right s) ≡ false
trim_right-tag [] h = h
trim_right-tag (c ∷ s) h =
    cons_trimmed-tag c (trim_right s) (ground (arith, trim_right-close s, trim_right-tag s))

-- Whatever a user types, the text that `stripHtml` returns has no `<` that is followed, however far
-- behind, by a `>`.
pub strip_html-has_tag : (value : Text) → has_tag (strip_html value) ≡ false
unfolding strip_html trim
strip_html-has_tag value = trim_right-tag (trim_left (collapse false (remove_tags false value))) (
    trim_left-tag (collapse false (remove_tags false value))
      (collapse-tag false (remove_tags false value) (remove_tags-tag false value)))
