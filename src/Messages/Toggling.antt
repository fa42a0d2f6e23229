-- ===== src/Messages/Toggling.antt =====
-- What `toggleReaction` of src/messages/messages.service.ts does to the reactions of a message.
use chatwave_backend.Base.{
  ℕ, ◌≡◌, refl, ◌∙◌, subst, Bool, true, false, ◌&&◌, ◌||◌, not, List, [], ◌∷◌, ◌++◌, ◌==◌, arith,
  All, All-append, All-filter, any, filter, mem, update_first, Bool-cases, inl, inr, ==-refl, ==→eq,
  or_false,
}
use chatwave_backend.Base.Text.{Text, text_eq}
use chatwave_backend.Schema.Message.{MessageReaction}
use chatwave_backend.Messages.Reactions.{erase, has_emoji, has_users, no_users, toggle_user, toggle}

text_eq_refl : (s : Text) → text_eq s s ≡ true
text_eq_refl [] = refl
text_eq_refl (c ∷ s) = ground (arith, text_eq_refl s)

text_eq_comm : (s t : Text) → text_eq s t ≡ text_eq t s
text_eq_comm [] [] = refl
text_eq_comm [] (d ∷ t) = refl
text_eq_comm (c ∷ s) [] = refl
text_eq_comm (c ∷ s) (d ∷ t) = ground (arith, text_eq_comm s t)

text_eq→eq : (s t : Text) → text_eq s t ≡ true → s ≡ t
text_eq→eq [] [] e = refl
text_eq→eq [] (d ∷ t) e = cc
text_eq→eq (c ∷ s) [] e = cc
text_eq→eq (c ∷ s) (d ∷ t) e = ground (arith, text_eq→eq s t)

-- No user twice.
abbrev pub NoDup : List ℕ → Type 0
NoDup [] = Unit
NoDup (u ∷ us) = (mem u us ≡ false) × NoDup us

-- No emoji twice.
abbrev pub Distinct : List MessageReaction → Type 0
Distinct [] = Unit
Distinct (r ∷ rs) = All (λ s. text_eq s.emoji r.emoji ≡ false) rs × Distinct rs

-- Each emoji once, with at least one user, and with each user once.
abbrev pub IsTidy : List MessageReaction → Type 0
IsTidy rs = All (λ r. has_users r ≡ true) rs × All (λ r. NoDup r.users) rs × Distinct rs

-- The user has reacted with the emoji.
abbrev pub reacted : Text → ℕ → List MessageReaction → Bool
reacted value user rs = any (λ r. has_emoji value r && mem user r.users) rs

mem-snoc : (v user : ℕ) (us : List ℕ) → mem v (us ++ user ∷ []) ≡ mem v us || user == v
mem-snoc v user [] = ground arith
mem-snoc v user (u ∷ us) = ground (arith, mem-snoc v user us)

mem-erase_self : (user : ℕ) (us : List ℕ) → NoDup us → mem user (erase user us) ≡ false
mem-erase_self user [] h = refl
mem-erase_self user (u ∷ us) h = elim (Bool-cases (u == user)) [
  | inl t ↦ rw t (subst (λ x. mem x us ≡ false) (==→eq u user t) h.0)
  | inr t ↦ rw (t, t) (mem-erase_self user us h.1)
]

mem-erase_back : (v user : ℕ) (us : List ℕ) → mem v us ≡ false → mem v (erase user us) ≡ false
mem-erase_back v user [] h = h
mem-erase_back v user (u ∷ us) h = ground (arith, mem-erase_back v user us)

NoDup-erase : (user : ℕ) (us : List ℕ) → NoDup us → NoDup (erase user us)
NoDup-erase user [] h = tt
NoDup-erase user (u ∷ us) h = elim (Bool-cases (u == user)) [
  | inl t ↦ rw t h.1
  | inr t ↦ rw t (mem-erase_back u user us h.0, NoDup-erase user us h.1)
]

NoDup-snoc : (user : ℕ) (us : List ℕ) → mem user us ≡ false → NoDup us → NoDup (us ++ user ∷ [])
NoDup-snoc user [] m h = (refl, tt)
NoDup-snoc user (u ∷ us) m h =
    let snoc = mem-snoc u user us in (ground arith, NoDup-snoc user us (ground arith) h.1)

toggle_user-NoDup :
    (user : ℕ) (r : MessageReaction) → NoDup r.users → NoDup (toggle_user user r).users
unfolding toggle_user
toggle_user-NoDup user r h = elim (Bool-cases (mem user r.users)) [
  | inl t ↦ rw t (NoDup-erase user r.users h)
  | inr t ↦ rw t (NoDup-snoc user r.users t h)
]

mem-toggle_user :
    (user : ℕ) (r : MessageReaction)
    → NoDup r.users
    → mem user (toggle_user user r).users ≡ not (mem user r.users)
unfolding toggle_user
mem-toggle_user user r h = elim (Bool-cases (mem user r.users)) [
  | inl t ↦ rw t (mem-erase_self user r.users h)
  | inr t ↦ rw t (mem-snoc user user r.users ∙ rw (t, ==-refl user))
]

reacted-filter :
    (value : Text) (user : ℕ) (rs : List MessageReaction)
    → reacted value user (filter has_users rs) ≡ reacted value user rs
reacted-filter value user [] = refl
reacted-filter value user (r ∷ rs) = ground (arith, reacted-filter value user rs, without r.users)
  where
    without : (us : List ℕ) → no_users us ≡ true → mem user us ≡ false
    without [] e = refl
    without (u ∷ us) e = cc

reacted-other :
    (value : Text) (user : ℕ) (rs : List MessageReaction)
    → All (λ s. text_eq s.emoji value ≡ false) rs
    → reacted value user rs ≡ false
reacted-other value user [] h = refl
reacted-other value user (r ∷ rs) h = rw h.0 (reacted-other value user rs h.1)

reacted-update :
    (value : Text) (user : ℕ) (rs : List MessageReaction)
    → any (has_emoji value) rs ≡ true
    → All (λ r. NoDup r.users) rs
    → Distinct rs
    → reacted value user (update_first (has_emoji value) (toggle_user user) rs)
      ≡ not (reacted value user rs)
reacted-update value user [] e h d = cc
reacted-update value user (r ∷ rs) e h d = elim (Bool-cases (text_eq r.emoji value)) [
  | inl t ↦
      let others =
        reacted-other value user rs
          (subst (λ x. All (λ s. text_eq s.emoji x ≡ false) rs) (text_eq→eq r.emoji value t) d.0) in
      let flipped = mem-toggle_user user r h.0 in
      let same : text_eq (toggle_user user r).emoji value ≡ text_eq r.emoji value =
        unfold toggle_user in refl in
      ground arith
  | inr t ↦ ground (arith, reacted-update value user rs (ground arith) h.1 d.1)
]

reacted-snoc :
    (value : Text) (user : ℕ) (rs : List MessageReaction)
    → any (has_emoji value) rs ≡ false
    → reacted value user (rs ++ record { emoji = value; users = user ∷ [] } ∷ [])
      ≡ not (reacted value user rs)
reacted-snoc value user [] e = rw (text_eq_refl value, ==-refl user)
reacted-snoc value user (r ∷ rs) e = ground (arith, reacted-snoc value user rs)

-- On tidy reactions the toggle takes the user's reaction with that emoji back where there is one, and
-- adds it where there is none.
pub reacted-toggle :
    (value : Text) (user : ℕ) (rs : List MessageReaction)
    → IsTidy rs
    → reacted value user (toggle value user rs) ≡ not (reacted value user rs)
unfolding toggle
reacted-toggle value user rs h = elim (Bool-cases (any (has_emoji value) rs)) [
  | inl t ↦ rw t (
      reacted-filter value user (update_first (has_emoji value) (toggle_user user) rs)
      ∙ reacted-update value user rs t h.1 h.2)
  | inr t ↦ rw t (reacted-snoc value user rs t)
]

module _ (P : MessageReaction → Type 0) where
  update-All :
      (p : MessageReaction → Bool) (f : MessageReaction → MessageReaction)
      (rs : List MessageReaction)
      → ((r : MessageReaction) → P r → P (f r))
      → All P rs
      → All P (update_first p f rs)
  update-All p f [] k h = tt
  update-All p f (r ∷ rs) k h = elim (Bool-cases (p r)) [
    | inl t ↦ rw t (k r h.0, h.1)
    | inr t ↦ rw t (h.0, update-All p f rs k h.1)
  ]

filter-has_users : (rs : List MessageReaction) → All (λ r. has_users r ≡ true) (filter has_users rs)
filter-has_users [] = tt
filter-has_users (r ∷ rs) = elim (Bool-cases (has_users r)) [
  | inl t ↦ rw t (t, filter-has_users rs)
  | inr t ↦ rw t (filter-has_users rs)
]

Distinct-filter : (rs : List MessageReaction) → Distinct rs → Distinct (filter has_users rs)
Distinct-filter [] d = tt
Distinct-filter (r ∷ rs) d = elim (Bool-cases (has_users r)) [
  | inl t ↦
      rw t
        (All-filter (λ s. text_eq s.emoji r.emoji ≡ false) has_users rs d.0, Distinct-filter rs d.1)
  | inr t ↦ rw t (Distinct-filter rs d.1)
]

Distinct-update :
    (value : Text) (user : ℕ) (rs : List MessageReaction)
    → Distinct rs
    → Distinct (update_first (has_emoji value) (toggle_user user) rs)
unfolding toggle_user
Distinct-update value user [] d = tt
Distinct-update value user (r ∷ rs) d = elim (Bool-cases (has_emoji value r)) [
  | inl t ↦ rw t d
  | inr t ↦ rw t (
    update-All (λ s. text_eq s.emoji r.emoji ≡ false) (has_emoji value) (toggle_user user) rs
        (λ s k. k) d.0,
    Distinct-update value user rs d.1,
  )
]

Distinct-snoc :
    (value : Text) (users : List ℕ) (rs : List MessageReaction)
    → any (has_emoji value) rs ≡ false
    → Distinct rs
    → Distinct (rs ++ record { emoji = value; users = users } ∷ [])
Distinct-snoc value users [] e d = (tt, tt)
Distinct-snoc value users (r ∷ rs) e d =
    let (here, rest) = or_false (has_emoji value r) (any (has_emoji value) rs) e in
    (
      All-append (λ s. text_eq s.emoji r.emoji ≡ false) rs
          (record { emoji = value; users = users } ∷ []) d.0
          (text_eq_comm value r.emoji ∙ here, tt),
      Distinct-snoc value users rs rest d.1,
    )

-- The toggle keeps the reactions tidy: no emoji twice, none without a user, no user twice at one.
pub toggle-IsTidy :
    (value : Text) (user : ℕ) (rs : List MessageReaction)
    → IsTidy rs
    → IsTidy (toggle value user rs)
unfolding toggle
toggle-IsTidy value user rs (full, once, distinct) = elim (Bool-cases (any (has_emoji value) rs)) [
  | inl t ↦
      let rs' = update_first (has_emoji value) (toggle_user user) rs in
      rw t (
        filter-has_users rs',
        All-filter (λ r. NoDup r.users) has_users rs'
            (update-All (λ r. NoDup r.users) (has_emoji value) (toggle_user user) rs
              (toggle_user-NoDup user) once),
        Distinct-filter rs' (Distinct-update value user rs distinct),
      )
  | inr t ↦
      let new : List MessageReaction = record { emoji = value; users = user ∷ [] } ∷ [] in
      rw t (
        All-append (λ r. has_users r ≡ true) rs new full (refl, tt),
        All-append (λ r. NoDup r.users) rs new once ((refl, tt), tt),
        Distinct-snoc value (user ∷ []) rs t distinct,
      )
]
