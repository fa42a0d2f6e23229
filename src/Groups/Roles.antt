-- ===== src/Groups/Roles.antt =====
-- `setAdmin` of src/groups/groups.service.ts, with all that it stores and posts.
use chatwave_backend.Base.{
  ℕ, ◌≡◌, ◌≤◌, ◌⊎◌, refl, sym, subst, ◌∙◌, Bool, Option, some, none, List, [], ◌∷◌, map, filter,
  length, ◌==◌, is_some, Bool-cases, Option-cases, inl, inr, arith, String, ==→eq, ==→ne,
}
use chatwave_backend.Base.Text.{Text}
use chatwave_backend.Base.Rows.{
  find_row, save_row, find_row-save_self, find_row-save_ne, key-find_row,
}
use chatwave_backend.Env.{Env, is_mongo_id}
use chatwave_backend.Schema.User.{AuthViewer}
use chatwave_backend.Schema.Conversation.{Conversation, ConversationMember, PreviewIcon}
use chatwave_backend.Schema.Message.{Message}
use chatwave_backend.World.State.{
  on_some, not_found, bad_request, forbidden, World, Emit, Exception, ok, thrown, gets, modify,
  pure, throw, throw_if, or_throw, and_then, ◌>>=◌, ◌>>◌,
}
use chatwave_backend.World.Effects.{
  conversation_id, emit, fresh_id, load_conversation, save_conversation, create_message,
}
use chatwave_backend.World.Keeps.{
  Keeps, pure-Keeps, gets-Keeps, modify-Keeps, bind-Keeps, seq-Keeps, guard-Keeps, found-Keeps,
  read-Keeps, throw_if-Keeps, or_throw-Keeps, on_some-Keeps, branch-Keeps,
}
use chatwave_backend.Users.{find_by_id}
use chatwave_backend.Conversations.Rows.{
  is_active, is_admin, is_group, active_member, has_admin_role, get_active_members, admin_count,
  apply_preview, apply_unread_increment, bump_unread, set_member_role, update_active,
}
use chatwave_backend.Conversations.Service.{
  get_by_id, assert_group, assert_active_member, assert_group_admin, bump_from_message,
}
use chatwave_backend.Messages.Service.{announce, send_system}
use chatwave_backend.Groups.Service.{commit, set_admin}
use chatwave_backend.Groups.Admins.{set_member_role-admin_count}

-- The chat is stored with an active admin.
abbrev pub HasAdmin : ℕ → World → Type 0
HasAdmin k w =
    (row : Conversation) × (find_row conversation_id k w.conversations ≡ some row)
    × (1 ≤ admin_count row)

abbrev Stored : ℕ → List Conversation → Type 0
Stored k cs =
    (row : Conversation) × (find_row conversation_id k cs ≡ some row) × (1 ≤ admin_count row)

save_row-Stored :
    (k : ℕ) (row : Conversation) (cs : List Conversation)
    → (row.id ≡ k → 1 ≤ admin_count row)
    → Stored k cs
    → Stored k (save_row conversation_id row cs)
save_row-Stored k row cs f (old, e, h) = elim (Bool-cases (row.id == k)) [
  | inl t ↦
      let same = ==→eq row.id k t in
      let there : find_row conversation_id row.id cs ≡ some old =
        subst (λ j. find_row conversation_id j cs ≡ some old) (sym same) e in
      (
        row,
        subst (λ j. find_row conversation_id j (save_row conversation_id row cs) ≡ some row) same
            (find_row-save_self conversation_id row cs old there),
        f same,
      )
  | inr n ↦ (old, find_row-save_ne conversation_id k row cs (λ q. ==→ne row.id k n (sym q)) ∙ e, h)
]

-- The stored row is the one that was loaded.
Stored-loaded :
    (k id : ℕ) (row : Conversation) (cs : List Conversation)
    → find_row conversation_id id cs ≡ some row
    → Stored k cs
    → row.id ≡ k
    → 1 ≤ admin_count row
Stored-loaded k id row cs e (old, at, h) same =
    let here = key-find_row conversation_id id cs row e in
    let found : find_row conversation_id k cs ≡ some row =
      subst (λ j. find_row conversation_id j cs ≡ some row) (sym here ∙ same) e in
    let is : some old ≡ some row = sym at ∙ found in
    let eq : old ≡ row = ground arith in subst (λ r. 1 ≤ admin_count r) eq h

admins-bump :
    (except : Option ℕ) (ms : List ConversationMember)
    → length (filter (λ m. is_admin m.role) (filter is_active (map (bump_unread except) ms)))
      ≡ length (filter (λ m. is_admin m.role) (filter is_active ms))
admins-bump except [] = refl
admins-bump except (m ∷ ms) = ground (arith, admins-bump except ms)

module _ (k : ℕ) where
  save-HasAdmin :
      (row : Conversation)
      → (row.id ≡ k → 1 ≤ admin_count row)
      → Keeps (HasAdmin k) (save_conversation row)
  unfolding save_conversation
  save-HasAdmin row f = modify-Keeps _ _ (λ w h. save_row-Stored k row w.conversations f h)

  emit-HasAdmin : (e : Emit) → Keeps (HasAdmin k) (emit e)
  unfolding emit
  emit-HasAdmin e = modify-Keeps _ _ (λ w h. h)

  fresh_id-HasAdmin : Keeps (HasAdmin k) fresh_id
  unfolding fresh_id
  fresh_id-HasAdmin = record { apply = λ w h. h }

  create_message-HasAdmin : (row : Message) → Keeps (HasAdmin k) (create_message row)
  unfolding create_message
  create_message-HasAdmin row = modify-Keeps _ _ (λ w h. h)

  module _ (env : Env) where
    get_by_id-HasAdmin : (id : ℕ) → Keeps (HasAdmin k) (get_by_id env id)
    unfolding get_by_id load_conversation gets pure
    get_by_id-HasAdmin id = elim (Bool-cases (is_mongo_id env id)) [
      | inl t ↦ rw t (record { apply = λ w h. h })
      | inr f ↦ rw f (record { apply = λ w h. h })
    ]

    bump-HasAdmin :
        (id : ℕ) (sender : Option ℕ) (preview : Text) (icon : Option PreviewIcon) (message : ℕ)
        → Keeps (HasAdmin k) (bump_from_message env id sender preview icon message)
    unfolding bump_from_message load_conversation save_conversation apply_preview
        apply_unread_increment admin_count get_active_members ◌>>=◌ ◌>>◌ and_then gets pure modify
        on_some
    bump-HasAdmin id sender preview icon message = record {
      apply = λ w h. elim (Option-cases (find_row conversation_id id w.conversations)) [
        | inl n ↦ rw n h
        | inr (row, e) ↦
            let bumped = admins-bump sender row.members in
            rw e (
              save_row-Stored k _ w.conversations
                (λ same. let was = Stored-loaded k id row w.conversations e h same in rw bumped was)
                h)
      ];
    }

    send_system-HasAdmin :
        (id : ℕ) (sender : Option ℕ) (body : Text)
        → Keeps (HasAdmin k) (send_system env id sender body)
    unfolding send_system announce
    send_system-HasAdmin id sender body = branch-Keeps _ _ (pure-Keeps _ _) (
        bind-Keeps _ (get_by_id-HasAdmin id) (λ found. on_some-Keeps _ found none (λ c.
          bind-Keeps _ (gets-Keeps _ _) (λ now. bind-Keeps _ fresh_id-HasAdmin (λ message.
            seq-Keeps _ (create_message-HasAdmin _) (
              seq-Keeps _ (bind-Keeps _ (bump-HasAdmin _ _ _ _ _) (λ b. emit-HasAdmin _))
                (pure-Keeps _ _)))))))

    commit-HasAdmin :
        (row : Conversation) (sender : Option ℕ) (body : Text)
        → (row.id ≡ k → 1 ≤ admin_count row)
        → Keeps (HasAdmin k) (commit env row sender body)
    unfolding commit
    commit-HasAdmin row sender body f = seq-Keeps _ (save-HasAdmin row f) (
        seq-Keeps _ (send_system-HasAdmin _ _ _) (
          bind-Keeps _ (get_by_id-HasAdmin _)
            (λ found. seq-Keeps _ (emit-HasAdmin _) (pure-Keeps _ _))))

assert_group_admin-cases :
    (env : Env) (id user : ℕ) (error : String) (w : World)
    → ((e : Exception) × (assert_group_admin env id user error w ≡ (thrown e, w)))
      ⊎ ((row : Conversation) × (assert_group_admin env id user error w ≡ (ok row, w))
          × (find_row conversation_id id w.conversations ≡ some row))
unfolding assert_group_admin assert_active_member assert_group load_conversation ◌>>=◌ ◌>>◌ and_then
    gets pure throw throw_if or_throw
assert_group_admin-cases env id user error w = elim (Bool-cases (is_mongo_id env id)) [
  | inr f ↦ inl (not_found "Conversation not found", rw f refl)
  | inl m ↦ elim (Option-cases (find_row conversation_id id w.conversations)) [
    | inl n ↦ inl (not_found "Conversation not found", rw (m, n) refl)
    | inr (row, e) ↦ elim (Bool-cases (is_group row.type)) [
      | inr f ↦ inl (bad_request "This is not a group", rw (m, e, f) refl)
      | inl g ↦ elim (Bool-cases (is_some (active_member row user))) [
        | inr f ↦ inl (not_found "Conversation not found", rw (m, e, g, f) refl)
        | inl a ↦ elim (Bool-cases (has_admin_role (active_member row user))) [
          | inr f ↦ inl (forbidden error, rw (m, e, g, a, f) refl)
          | inl t ↦ inr (row, rw (m, e, g, a, t) refl, e)
        ]
      ]
    ]
  ]
]

-- Whoever asks `setAdmin` for whatever change of role, and whether it is granted or refused: a chat that
-- is stored with an active admin is stored with one afterwards, the notice of the change included.
pub set_admin-HasAdmin :
    (k : ℕ) (env : Env) (viewer : AuthViewer) (id user : ℕ) (make_admin : Bool)
    → Keeps (HasAdmin k) (set_admin env viewer id user make_admin)
unfolding set_admin find_by_id set_member_role update_active
set_admin-HasAdmin k env viewer id user make_admin = read-Keeps _ (λ w h.
    elim (assert_group_admin-cases env id viewer.id "Only a group admin can do that" w) [
      | inl (x, e) ↦ inl (x, e)
      | inr (row, e, at) ↦
          let had = Stored-loaded k id row w.conversations at h in
          inr (
            row,
            e,
            found-Keeps _ _ _ (λ seat here. guard-Keeps _ _ _ (λ free.
                seq-Keeps _ (throw_if-Keeps _ _ _) (
                  bind-Keeps _ (gets-Keeps _ _) (λ found.
                    bind-Keeps _ (or_throw-Keeps _ _ _) (λ target.
                      seq-Keeps _
                        (commit-HasAdmin k env _ _ _ (λ same.
                          set_member_role-admin_count row user seat make_admin here free
                            (had same)))
                        (pure-Keeps _ tt)))))),
          )
    ])
