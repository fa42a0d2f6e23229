-- ===== src/Contacts/Book.antt =====
-- The rows of contacts: one at most for an owner and a person, and none for oneself.
use chatwave_backend.Base.{
  ℕ, ◌≡◌, ◌≢◌, refl, sym, false, Option, none, some, List, [], ◌∷◌, ◌++◌, find, update_first, arith,
  Bool-cases, Option-cases, inl, inr, All, All-append, ==→ne,
}
use chatwave_backend.Base.Text.{Text}
use chatwave_backend.Env.{Env}
use chatwave_backend.Schema.User.{User, AuthViewer}
use chatwave_backend.Schema.Block.{Contact}
use chatwave_backend.Schema.Conversation.{Conversation}
use chatwave_backend.World.State.{World, pure, gets, modify, and_then, ◌>>=◌, ◌>>◌}
use chatwave_backend.World.Effects.{fresh_id, save_conversation, create_conversation}
use chatwave_backend.World.Keeps.{
  Keeps, pure-Keeps, throw-Keeps, guard-Keeps, gets-Keeps, modify-Keeps, bind-Keeps, seq-Keeps,
  throw_if-Keeps, or_throw-Keeps, branch-Keeps,
}
use chatwave_backend.Users.{find_by_id, find_active_by_id}
use chatwave_backend.Users.Presence.{get_live_presence}
use chatwave_backend.Users.Profiles.{
  public_user, find_by_username, Named, by_id, by_username, by_nothing, find_named,
}
use chatwave_backend.Blocks.Queries.{assert_not_blocked}
use chatwave_backend.Blocks.Service.{is_contact}
use chatwave_backend.Conversations.Details.{find_direct, to_detail}
use chatwave_backend.Conversations.Service.{direct_for, create_direct}
use chatwave_backend.Contacts.Service.{
  find_contact, create_contact, set_note, to_dto, save_contact, add, update_note,
}

-- No two rows are of the same owner and person.
abbrev pub NoTwice : List Contact → Type 0
NoTwice [] = Unit
NoTwice (c ∷ cs) = (find (is_contact c.owner c.person) cs ≡ none) × NoTwice cs

pub record IsBook (w : World) : Type 0 where
  pub once : NoTwice w.contacts
  pub no_self : All (λ c. c.owner ≢ c.person) w.contacts

find-snoc :
    (a b : ℕ) (cs : List Contact) (c : Contact)
    → find (is_contact a b) cs ≡ none
    → is_contact a b c ≡ false
    → find (is_contact a b) (cs ++ c ∷ []) ≡ none
find-snoc a b [] c h e = rw e refl
find-snoc a b (d ∷ cs) c h e = ground (arith, find-snoc a b cs c)

NoTwice-snoc :
    (cs : List Contact) (c : Contact)
    → NoTwice cs
    → find (is_contact c.owner c.person) cs ≡ none
    → NoTwice (cs ++ c ∷ [])
NoTwice-snoc [] c h e = (refl, tt)
NoTwice-snoc (d ∷ cs) c h e = elim (Bool-cases (is_contact c.owner c.person d)) [
  | inl t ↦ absurd (let no = rw t at e in cc)
  | inr f ↦ (find-snoc d.owner d.person cs c h.0 (ground arith), NoTwice-snoc cs c h.1 (rw f at e))
]

find-set_note :
    (a b owner person : ℕ) (note : Text) (cs : List Contact)
    → find (is_contact a b) cs ≡ none
    → find
        (is_contact a b)
        (update_first (is_contact owner person) (λ c. record c { note = note }) cs)
      ≡ none
find-set_note a b owner person note [] h = refl
find-set_note a b owner person note (c ∷ cs) h =
    ground (arith, find-set_note a b owner person note cs)

set_note-NoTwice :
    (owner person : ℕ) (note : Text) (cs : List Contact)
    → NoTwice cs
    → NoTwice (update_first (is_contact owner person) (λ c. record c { note = note }) cs)
set_note-NoTwice owner person note [] h = tt
set_note-NoTwice owner person note (c ∷ cs) h = elim (Bool-cases (is_contact owner person c)) [
  | inl t ↦ rw t h
  | inr f ↦ rw f (
    find-set_note c.owner c.person owner person note cs h.0,
    set_note-NoTwice owner person note cs h.1,
  )
]

set_note-no_self :
    (owner person : ℕ) (note : Text) (cs : List Contact)
    → All (λ c. c.owner ≢ c.person) cs
    → All
        (λ c. c.owner ≢ c.person)
        (update_first (is_contact owner person) (λ c. record c { note = note }) cs)
set_note-no_self owner person note [] h = tt
set_note-no_self owner person note (c ∷ cs) h = elim (Bool-cases (is_contact owner person c)) [
  | inl t ↦ rw t h
  | inr f ↦ rw f (h.0, set_note-no_self owner person note cs h.1)
]

save_contact-IsBook :
    (env : Env) (month_day : ℕ → Text) (owner person : ℕ) (note : Text)
    → owner ≢ person
    → Keeps IsBook (save_contact env month_day owner person note)
unfolding save_contact create_contact find_contact ◌>>=◌ ◌>>◌ and_then gets modify pure
save_contact-IsBook env month_day owner person note ne = record {
  apply = λ w h. elim (Option-cases (find (is_contact owner person) w.contacts)) [
    | inr (row, e) ↦ rw e h
    | inl e ↦ rw e (record {
      once = NoTwice-snoc w.contacts _ h.once e;
      no_self = All-append (λ c. c.owner ≢ c.person) w.contacts _ h.no_self (ne, tt);
    })
  ];
}

abbrev same_book : (w after : World) → after.contacts ≡ w.contacts → IsBook w → IsBook after
same_book w after e h = record { once = rw e h.once; no_self = rw e h.no_self }

other-IsBook :
    (f : World → World) → ((w : World) → (f w).contacts ≡ w.contacts) → Keeps IsBook (modify f)
other-IsBook f e = modify-Keeps IsBook f (λ w h. same_book w (f w) (e w) h)

save-IsBook : (row : Conversation) → Keeps IsBook (save_conversation row)
unfolding save_conversation
save-IsBook row = other-IsBook _ (λ w. refl)

create-IsBook : (row : Conversation) → Keeps IsBook (create_conversation row)
unfolding create_conversation
create-IsBook row = other-IsBook _ (λ w. refl)

fresh_id-IsBook : Keeps IsBook fresh_id
unfolding fresh_id
fresh_id-IsBook = record { apply = λ w h. same_book w _ refl h }

to_detail-IsBook : (viewer : AuthViewer) (row : Conversation) → Keeps IsBook (to_detail viewer row)
unfolding to_detail
to_detail-IsBook viewer row = bind-Keeps _ (or_throw-Keeps _ _ _) (λ mine. pure-Keeps _ _)

module _ (env : Env) where
  direct_for-IsBook :
      (viewer : AuthViewer) (other : ℕ) (found : Option Conversation) (now : ℕ)
      → Keeps IsBook (direct_for env viewer other found now)
  unfolding direct_for
  direct_for-IsBook viewer other (some found) now =
      seq-Keeps _ (save-IsBook _) (bind-Keeps _ (to_detail-IsBook viewer _) (λ d. pure-Keeps _ _))
  direct_for-IsBook viewer other none now = bind-Keeps _ fresh_id-IsBook (λ id.
      seq-Keeps _ (create-IsBook _)
        (bind-Keeps _ (to_detail-IsBook viewer _) (λ d. pure-Keeps _ _)))

  create_direct-IsBook :
      (viewer : AuthViewer) (other : ℕ) → Keeps IsBook (create_direct env viewer other)
  unfolding create_direct assert_not_blocked find_active_by_id find_direct
  create_direct-IsBook viewer other = seq-Keeps _ (throw_if-Keeps _ _ _) (
      seq-Keeps _ (bind-Keeps _ (gets-Keeps _ _) (λ c. throw_if-Keeps _ _ _)) (
        seq-Keeps _ (throw_if-Keeps _ _ _) (
          bind-Keeps _ (gets-Keeps _ _) (λ person. seq-Keeps _ (throw_if-Keeps _ _ _) (
            bind-Keeps _ (gets-Keeps _ _) (λ existing.
              bind-Keeps _ (gets-Keeps _ _)
                (λ now. direct_for-IsBook viewer other existing now)))))))

  module _ (month_day : ℕ → Text) where
    to_dto-IsBook :
        (viewer : AuthViewer) (person : User) (saved : Text) (chat : Option ℕ)
        → Keeps IsBook (to_dto env month_day viewer person saved chat)
    unfolding to_dto public_user get_live_presence
    to_dto-IsBook viewer person saved chat =
        bind-Keeps _
          (bind-Keeps _
            (bind-Keeps _ (gets-Keeps _ _)
              (λ found. seq-Keeps _ (other-IsBook _ (λ w. refl)) (pure-Keeps _ _)))
            (λ found. pure-Keeps _ _))
          (λ profile.
            bind-Keeps _ (gets-Keeps _ _)
              (λ now. bind-Keeps _ (gets-Keeps _ _) (λ link. pure-Keeps _ _)))

    find_named-IsBook :
        (named : Named) → Keeps IsBook (find_named env "Pick someone to follow" named)
    unfolding find_named find_by_id find_by_username
    find_named-IsBook (by_id user) = branch-Keeps _ _ (pure-Keeps _ _) (gets-Keeps _ _)
    find_named-IsBook (by_username name) = gets-Keeps _ _
    find_named-IsBook by_nothing = throw-Keeps _ _

    -- Whoever follows whom, by id or by name, and however often: the rows of contacts stay one at most
    -- for an owner and a person, and no one follows themselves. This also holds where the chat that is
    -- opened with it is refused.
    pub add-IsBook :
        (viewer : AuthViewer) (named : Named) (note : Option Text)
        → Keeps IsBook (add env month_day viewer named note)
    unfolding add assert_not_blocked
    add-IsBook viewer named remark = bind-Keeps _ (find_named-IsBook named) (λ found.
        bind-Keeps _ (or_throw-Keeps _ _ _) (λ person. guard-Keeps _ _ _ (λ f.
          let ne : viewer.id ≢ person.id = λ e. ==→ne person.id viewer.id f (sym e) in
          seq-Keeps _ (throw_if-Keeps _ _ _) (
            seq-Keeps _ (bind-Keeps _ (gets-Keeps _ _) (λ c. throw_if-Keeps _ _ _)) (
              bind-Keeps _ (save_contact-IsBook env month_day viewer.id person.id _ ne) (λ saved.
                bind-Keeps _ (create_direct-IsBook viewer person.id) (λ opened.
                  bind-Keeps _ (to_dto-IsBook viewer person _ _) (λ dto. pure-Keeps _ _))))))))

    pub update_note-IsBook :
        (viewer : AuthViewer) (id : ℕ) (note : Text)
        → Keeps IsBook (update_note env month_day viewer id note)
    unfolding update_note find_by_id set_note
    update_note-IsBook viewer id note = seq-Keeps _ (throw_if-Keeps _ _ _) (
        bind-Keeps _ (gets-Keeps _ _) (λ found. bind-Keeps _ (or_throw-Keeps _ _ _) (λ person.
          seq-Keeps _ (throw_if-Keeps _ _ _) (
            bind-Keeps _ (gets-Keeps _ _) (λ row. seq-Keeps _ (throw_if-Keeps _ _ _) (
              seq-Keeps _
                (modify-Keeps _ _ (λ w h. record {
                  once = set_note-NoTwice viewer.id person.id _ w.contacts h.once;
                  no_self = set_note-no_self viewer.id person.id _ w.contacts h.no_self;
                }))
                (to_dto-IsBook viewer person _ none)))))))
