-- ===== src/Auth/Index.antt =====
-- The set `user_sessions:<user>` indexes the user's live sessions, so that all of them can be revoked
-- at once.
use chatwave_backend.Base.{
  ℕ, ◌+◌, ◌≤◌, ◌≡◌, ◌≢◌, refl, sym, ap, subst, ◌∙◌, true, false, none, some, List, [], ◌∷◌, ◌++◌,
  ◌==◌, ltb, arith, if◌then◌else◌, mem, Bool-cases, Option-cases, inl, inr, ==→eq, ==-refl,
}
use chatwave_backend.Env.{Env}
use chatwave_backend.Schema.Session.{SessionMeta, SessionRecord}
use chatwave_backend.World.State.{Sessions}
use chatwave_backend.World.Ttl.{Entry, lookup, get, put, del, del_all, lookup-del}
use chatwave_backend.Auth.Sessions.{
  session_ttl, add_member, drop_member, members, new_record, create_session, get_session,
  refresh_session, drop_from, delete_session, delete_all_sessions,
}

mem-add_member : (j id : ℕ) (ids : List ℕ) → mem j ids ≡ true → mem j (add_member id ids) ≡ true
mem-add_member j id ids h = elim (Bool-cases (mem id ids)) [
  | inl t ↦ rw t h
  | inr t ↦ rw t (snoc ids h)
]
  where
    snoc : (xs : List ℕ) → mem j xs ≡ true → mem j (xs ++ id ∷ []) ≡ true
    snoc [] k = cc
    snoc (x ∷ xs) k = ground (arith, snoc xs)

mem-add_member_self : (id : ℕ) (ids : List ℕ) → mem id (add_member id ids) ≡ true
mem-add_member_self id ids = elim (Bool-cases (mem id ids)) [
  | inl t ↦ rw t t
  | inr t ↦ rw t (snoc ids)
]
  where
    snoc : (xs : List ℕ) → mem id (xs ++ id ∷ []) ≡ true
    snoc [] = ground arith
    snoc (x ∷ xs) = ground (arith, snoc xs)

mem-drop_member :
    (j id : ℕ) (ids : List ℕ)
    → j == id ≡ false
    → mem j ids ≡ true
    → mem j (drop_member id ids) ≡ true
mem-drop_member j id [] ne h = h
mem-drop_member j id (x ∷ xs) ne h = ground (arith, mem-drop_member j id xs)

lookup-drop_from_ne :
    (u user id : ℕ) (es : List (Entry (List ℕ)))
    → user == u ≡ false
    → lookup u (drop_from user id es) ≡ lookup u es
lookup-drop_from_ne u user id [] ne = refl
lookup-drop_from_ne u user id (e ∷ es) ne = ground (arith, lookup-drop_from_ne u user id es)

abbrev dropped : ℕ → Entry (List ℕ) → Entry (List ℕ)
dropped id e = record e { value = drop_member id e.value }

lookup-drop_from_self :
    (user id : ℕ) (es : List (Entry (List ℕ))) (t : Entry (List ℕ))
    → lookup user es ≡ some t
    → lookup user (drop_from user id es) ≡ some (dropped id t)
lookup-drop_from_self user id [] t h = cc
lookup-drop_from_self user id (e ∷ es) t h = elim (Bool-cases (e.key == user)) [
  | inl k ↦ let same : e ≡ t = ground arith in rw (k, k) (ap (λ x. some (dropped id x)) same)
  | inr k ↦ rw (k, k) (lookup-drop_from_self user id es t (rw k at h))
]

module _ {V : Type 0} where
  lookup-del_all :
      (j : ℕ) (ks : List ℕ) (es : List (Entry V))
      → lookup j (del_all ks es) ≡ (if mem j ks then none else lookup j es)
  lookup-del_all j [] es = refl
  lookup-del_all j (k ∷ ks) es = lookup-del_all j ks (del k es) ∙ ground (arith, lookup-del j k es)

-- A live session is in its user's set, which does not expire before it.
pub record Indexed (now : ℕ) (s : Sessions) (id : ℕ) (e : Entry SessionRecord) : Type 0 where
  pub set : Entry (List ℕ)
  pub found : lookup e.value.user s.sets ≡ some set
  pub listed : mem id set.value ≡ true
  pub outlives : e.expires_at ≤ set.expires_at
  pub bounded : e.expires_at ≤ now + session_ttl

abbrev pub IsIndexed : ℕ → Sessions → Type 0
IsIndexed now s =
    (id : ℕ) (e : Entry SessionRecord)
    → lookup id s.keys ≡ some e
    → ltb now e.expires_at ≡ true
    → Indexed now s id e

-- The members of the set are read off it as long as a session of the user lives.
members-Indexed :
    (now id : ℕ) (s : Sessions) (e : Entry SessionRecord) (i : Indexed now s id e)
    → ltb now e.expires_at ≡ true
    → members now e.value.user s ≡ i.set.value
members-Indexed now id s e i fresh =
    let found = i.found in let outlives = i.outlives in ground arith

-- Writing a session with a full lifetime, and with it a set of its user that holds it and all that the
-- set held before.
put-IsIndexed :
    (now id : ℕ) (row : SessionRecord) (ids : List ℕ) (s : Sessions)
    → mem id ids ≡ true
    → ((j : ℕ) → mem j (members now row.user s) ≡ true → mem j ids ≡ true)
    → IsIndexed now s
    → IsIndexed now (record {
      keys = put id row (now + session_ttl) s.keys;
      sets = put row.user ids (now + session_ttl) s.sets;
    })
put-IsIndexed now id row ids s self more h j e at fresh = elim (Bool-cases (id == j)) [
  | inl t ↦
      let new : record { key = id; value = row; expires_at = now + session_ttl } ≡ e =
        ground arith in
      let here : id ≡ j = ==→eq id j t in
      subst
        (Indexed now
          (record {
            keys = put id row (now + session_ttl) s.keys;
            sets = put row.user ids (now + session_ttl) s.sets;
          })
          j)
        new
        (record {
          set = record { key = row.user; value = ids; expires_at = now + session_ttl };
          found = rw (==-refl row.user);
          listed = subst (λ k. mem k ids ≡ true) here self;
          outlives = omega arith;
          bounded = omega arith;
        })
  | inr t ↦
      let old : lookup j s.keys ≡ some e = ground (arith, lookup-del j id s.keys) in
      let i = h j e old fresh in
      elim (Bool-cases (row.user == e.value.user)) [
        | inl u ↦
            let mine : row.user ≡ e.value.user = ==→eq row.user e.value.user u in
            record {
              set = record { key = row.user; value = ids; expires_at = now + session_ttl };
              found = rw u;
              listed = more j (rw mine (rw (members-Indexed now j s e i fresh) i.listed));
              outlives = i.bounded;
              bounded = i.bounded;
            }
        | inr u ↦ record {
          set = i.set;
          found = rw (u, lookup-del e.value.user row.user s.sets, u) i.found;
          listed = i.listed;
          outlives = i.outlives;
          bounded = i.bounded;
        }
      ]
]

pub create_session-IsIndexed :
    (env : Env) (now id user : ℕ) (input : SessionMeta) (s : Sessions)
    → IsIndexed now s
    → IsIndexed now (create_session env now id user input s)
unfolding create_session new_record
create_session-IsIndexed env now id user input s h =
    put-IsIndexed now id (new_record env now user input) (add_member id (members now user s)) s
      (mem-add_member_self id (members now user s))
      (λ j m. mem-add_member j id (members now user s) m) h

refresh_session-run :
    (now id user : ℕ) (s : Sessions) (row : SessionRecord) (ids : List ℕ)
    → get now id s.keys ≡ some row
    → get now user s.sets ≡ some ids
    → refresh_session now id user s ≡ record {
      keys = put id (record row { last_active_at = now }) (now + session_ttl) s.keys;
      sets = put user ids (now + session_ttl) s.sets;
    }
unfolding refresh_session
refresh_session-run now id user s row ids f g = rw f (rw g refl)

pub refresh_session-IsIndexed :
    (now id user : ℕ) (s : Sessions) (row : SessionRecord)
    → get_session now id s ≡ some row
    → row.user ≡ user
    → IsIndexed now s
    → IsIndexed now (refresh_session now id user s)
unfolding refresh_session get_session
refresh_session-IsIndexed now id user s row found owner h = elim (Option-cases (lookup id s.keys)) [
  | inl n ↦ absurd (ground arith)
  | inr (e, at) ↦
      let fresh : ltb now e.expires_at ≡ true = ground arith in
      let is : e.value ≡ row = ground arith in
      let user_is : e.value.user ≡ user = ap (λ r. r.user) is ∙ owner in
      let i = h id e at fresh in
      let outlives = i.outlives in
      let there : lookup user s.sets ≡ some i.set =
        subst (λ u. lookup u s.sets ≡ some i.set) user_is i.found in
      let set_is : get now user s.sets ≡ some i.set.value = ground arith in
      let members_are : members now user s ≡ i.set.value = ground arith in
      subst (IsIndexed now) (sym (refresh_session-run now id user s row i.set.value found set_is)) (
        subst
          (λ u. IsIndexed now (record {
            keys = put id (record row { last_active_at = now }) (now + session_ttl) s.keys;
            sets = put u i.set.value (now + session_ttl) s.sets;
          }))
          owner
          (put-IsIndexed now id (record row { last_active_at = now }) i.set.value s i.listed
            (λ j m. subst (λ xs. mem j xs ≡ true) (ap (λ u. members now u s) owner ∙ members_are) m)
            h))
]

pub delete_session-IsIndexed :
    (now id user : ℕ) (s : Sessions) → IsIndexed now s → IsIndexed now (delete_session id user s)
unfolding delete_session
delete_session-IsIndexed now id user s h j e at fresh =
    let ne : j == id ≡ false = ground (arith, lookup-del j id s.keys) in
    let old : lookup j s.keys ≡ some e = ground (arith, lookup-del j id s.keys) in
    let i = h j e old fresh in
    elim (Bool-cases (user == e.value.user)) [
      | inl u ↦
          let mine : user ≡ e.value.user = ==→eq user e.value.user u in
          record {
            set = dropped id i.set;
            found = rw (← mine) (lookup-drop_from_self user id s.sets i.set (rw mine i.found));
            listed = mem-drop_member j id i.set.value ne i.listed;
            outlives = i.outlives;
            bounded = i.bounded;
          }
      | inr u ↦ record {
        set = i.set;
        found = rw (lookup-drop_from_ne e.value.user user id s.sets u) i.found;
        listed = i.listed;
        outlives = i.outlives;
        bounded = i.bounded;
      }
    ]

-- What is left of the keys after all sessions of a user are deleted: live ones of other users.
delete_all-survivor :
    (now user : ℕ) (s : Sessions) (j : ℕ) (e : Entry SessionRecord)
    → IsIndexed now s
    → lookup j (delete_all_sessions now user s).keys ≡ some e
    → ltb now e.expires_at ≡ true
    → (lookup j s.keys ≡ some e) × (user == e.value.user ≡ false)
unfolding delete_all_sessions
delete_all-survivor now user s j e h at fresh =
    let old : lookup j s.keys ≡ some e =
      ground (arith, lookup-del_all j (members now user s) s.keys) in
    let kept : mem j (members now user s) ≡ false =
      ground (arith, lookup-del_all j (members now user s) s.keys) in
    let i = h j e old fresh in
    let all = members-Indexed now j s e i fresh in
    let listed = i.listed in
    (
      old,
      elim (Bool-cases (user == e.value.user)) [
        | inr u ↦ u
        | inl u ↦
            let mine : user ≡ e.value.user = ==→eq user e.value.user u in
            let bad : mem j (members now e.value.user s) ≡ false =
              subst (λ k. mem j (members now k s) ≡ false) mine kept in
            let good : mem j (members now e.value.user s) ≡ true = rw all listed in
            absurd (ground arith)
      ],
    )

pub delete_all_sessions-IsIndexed :
    (now user : ℕ) (s : Sessions) → IsIndexed now s → IsIndexed now (delete_all_sessions now user s)
unfolding delete_all_sessions
delete_all_sessions-IsIndexed now user s h j e at fresh =
    let (old, other) = delete_all-survivor now user s j e h at fresh in
    let i = h j e old fresh in
    record {
      set = i.set;
      found = rw (lookup-del e.value.user user s.sets, other) i.found;
      listed = i.listed;
      outlives = i.outlives;
      bounded = i.bounded;
    }

-- Once all sessions of a user are deleted, no session that Redis still gives is the user's.
pub get_session-delete_all :
    (now user id : ℕ) (s : Sessions)
    → IsIndexed now s
    → (row : SessionRecord) → get_session now id (delete_all_sessions now user s) ≡ some row
    → row.user ≢ user
unfolding get_session
get_session-delete_all now user id s h row e =
    elim (Option-cases (lookup id (delete_all_sessions now user s).keys)) [
      | inl n ↦ absurd (ground arith)
      | inr (entry, at) ↦
          let fresh : ltb now entry.expires_at ≡ true = ground arith in
          let is : entry.value ≡ row = ground arith in
          let (old, other) = delete_all-survivor now user s id entry h at fresh in
          λ q. absurd (ground arith)
    ]

-- Time does not harm the index.
pub IsIndexed-later :
    (now later : ℕ) (s : Sessions) → now ≤ later → IsIndexed now s → IsIndexed later s
IsIndexed-later now later s le h j e at fresh =
    let i = h j e at (ground arith) in
    let bounded = i.bounded in
    record {
      set = i.set;
      found = i.found;
      listed = i.listed;
      outlives = i.outlives;
      bounded = omega arith;
    }
