-- ===== src/Conversations/Filters.antt =====
-- Which chats `list` of src/conversations/conversations.service.ts shows under which filter, and in
-- which order.
use chatwave_backend.Base.{
  ℕ, zero, suc, ◌≡◌, ◌≤◌, Option, refl, true, false, ◌&&◌, ◌||◌, not, List, [], ◌∷◌, Bool-cases,
  inl, inr, arith, All, take, filter, mem, ltb, length,
}
use chatwave_backend.Schema.Conversation.{Conversation, ConversationMember}
use chatwave_backend.Base.Text.{Text}
use chatwave_backend.Env.{Env, is_mongo_id}
use chatwave_backend.Schema.User.{AuthViewer}
use chatwave_backend.World.State.{
  World, Result, ok, gets, pure, and_then, ◌>>=◌, ◌>>◌, modify, branch,
}
use chatwave_backend.Users.{find_by_ids}
use chatwave_backend.Users.Naming.{length-take}
use chatwave_backend.Users.Profiles.{at_most, public_users}
use chatwave_backend.Blocks.Restricted.{restricted_ids, lookup_restricted}
use chatwave_backend.Conversations.Rows.{is_group}
use chatwave_backend.Conversations.Listing.{
  ListFilter, all, unread, groups, calls, archived, list_rows, list, people_views, rows_of,
  query_of, people_ids, collect, ListItem, is_kept_out, passes_list, goes_before, insert_item,
  sort_items,
}

-- No chat is shown both among all and under archived. Every chat of the viewer is under one of the
-- two, unless it is an unarchived direct chat with someone kept out by a block; and what the filters
-- unread and groups show, all shows.
pub passes_list-partition :
    (viewer : ℕ) (skip : List ℕ) (row : Conversation) (mine : ConversationMember)
    → ((passes_list all viewer skip row mine && passes_list archived viewer skip row mine) ≡ false)
      × ((passes_list all viewer skip row mine || passes_list archived viewer skip row mine)
          ≡ (mine.archived || not (is_kept_out viewer skip row)))
      × (passes_list unread viewer skip row mine
          ≡ (ltb 0 mine.unread_count && passes_list all viewer skip row mine))
      × (passes_list groups viewer skip row mine
          ≡ (is_group row.type && passes_list all viewer skip row mine))
unfolding passes_list
passes_list-partition viewer skip row mine =
    let kept = is_kept_out viewer skip row in
    (ground arith, ground arith, ground arith, ground arith)

-- `a` may stand before `b`: `b` is pinned only if `a` is, and of two that are both pinned or both not,
-- `a` is not the older.
abbrev pub MayPrecede : ListItem → ListItem → Type 0
MayPrecede a b = (b.pinned ≡ true → a.pinned ≡ true) × (a.pinned ≡ b.pinned → b.time ≤ a.time)

abbrev pub IsOrdered : List ListItem → Type 0
IsOrdered [] = Unit
IsOrdered (x ∷ xs) = All (MayPrecede x) xs × IsOrdered xs

MayPrecede-goes_before : (a b : ListItem) → goes_before b a ≡ false → MayPrecede a b
MayPrecede-goes_before a b h = (λ p. ground arith, λ e. ground arith)

-- No later item is to stand before an earlier one, by the code's own comparison.
abbrev IsSorted : List ListItem → Type 0
IsSorted [] = Unit
IsSorted (x ∷ xs) = All (λ y. goes_before y x ≡ false) xs × IsSorted xs

All-MayPrecede :
    (x : ListItem) (xs : List ListItem)
    → All (λ y. goes_before y x ≡ false) xs
    → All (MayPrecede x) xs
All-MayPrecede x [] h = tt
All-MayPrecede x (y ∷ ys) h = (MayPrecede-goes_before x y h.0, All-MayPrecede x ys h.1)

IsOrdered-IsSorted : (xs : List ListItem) → IsSorted xs → IsOrdered xs
IsOrdered-IsSorted [] h = tt
IsOrdered-IsSorted (x ∷ xs) h = (All-MayPrecede x xs h.0, IsOrdered-IsSorted xs h.1)

goes_before_trans :
    (a b c : ListItem) → goes_before b a ≡ false → goes_before c b ≡ false → goes_before c a ≡ false
goes_before_trans a b c h k = ground arith

goes_before_asym : (a b : ListItem) → goes_before a b ≡ true → goes_before b a ≡ false
goes_before_asym a b h = ground arith

after-All :
    (a b : ListItem) (xs : List ListItem)
    → goes_before b a ≡ false
    → All (λ y. goes_before y b ≡ false) xs
    → All (λ y. goes_before y a ≡ false) xs
after-All a b [] h k = tt
after-All a b (c ∷ xs) h k = (goes_before_trans a b c h k.0, after-All a b xs h k.1)

insert_item-All :
    (P : ListItem → Type 0) (x : ListItem) (xs : List ListItem)
    → P x
    → All P xs
    → All P (insert_item x xs)
insert_item-All P x [] p h = (p, tt)
insert_item-All P x (y ∷ ys) p h = elim (Bool-cases (goes_before y x)) [
  | inl t ↦ rw t (h.0, insert_item-All P x ys p h.1)
  | inr f ↦ rw f (p, h)
]

insert_item-IsSorted :
    (x : ListItem) (xs : List ListItem) → IsSorted xs → IsSorted (insert_item x xs)
insert_item-IsSorted x [] h = (tt, tt)
insert_item-IsSorted x (y ∷ ys) h = elim (Bool-cases (goes_before y x)) [
  | inl t ↦ rw t (
    insert_item-All (λ z. goes_before z y ≡ false) x ys (goes_before_asym y x t) h.0,
    insert_item-IsSorted x ys h.1,
  )
  | inr f ↦ rw f ((f, after-All x y ys f h.0), h)
]

sort_items-IsSorted : (xs : List ListItem) → IsSorted (sort_items xs)
unfolding sort_items
sort_items-IsSorted [] = tt
sort_items-IsSorted (x ∷ xs) = insert_item-IsSorted x (sort_items xs) (sort_items-IsSorted xs)

take-All : (P : ListItem → Type 0) (n : ℕ) (xs : List ListItem) → All P xs → All P (take n xs)
take-All P zero xs h = tt
take-All P (suc n) [] h = tt
take-All P (suc n) (x ∷ xs) h = (h.0, take-All P n xs h.1)

take-IsOrdered : (n : ℕ) (xs : List ListItem) → IsOrdered xs → IsOrdered (take n xs)
take-IsOrdered zero xs h = tt
take-IsOrdered (suc n) [] h = tt
take-IsOrdered (suc n) (x ∷ xs) h = (take-All _ n xs h.0, take-IsOrdered n xs h.1)

bounded : (limit : ℕ) (xs : List ListItem) → length (take (at_most limit 50 100) xs) ≤ 100
bounded limit xs = let short = length-take (at_most limit 50 100) xs in ground arith

answered :
    (limit : ℕ) (r : Result (List ListItem))
    → (xs : List ListItem) × (r ≡ ok (take (at_most limit 50 100) (sort_items xs)))
    → (items : List ListItem) × (r ≡ ok items) × IsOrdered items × (length items ≤ 100)
answered limit r (xs, e) = (
  take (at_most limit 50 100) (sort_items xs),
  e,
  take-IsOrdered (at_most limit 50 100) (sort_items xs)
      (IsOrdered-IsSorted (sort_items xs) (sort_items-IsSorted xs)),
  bounded limit (sort_items xs),
)

module _ (env : Env) (by_time : List Conversation → List Conversation) where
  restricted-ok :
      (user : ℕ) (w : World)
      → (ids : List ℕ) × (v : World) × (restricted_ids env user w ≡ (ok ids, v))
  unfolding restricted_ids ◌>>=◌ ◌>>◌ and_then gets modify pure branch
  restricted-ok user w = elim (Bool-cases (is_mongo_id env user)) [
    | inl t ↦ rw t ((lookup_restricted user w).0, (lookup_restricted user w).1, refl)
    | inr f ↦ rw f ([], w, refl)
  ]

  listed :
      (viewer : AuthViewer) (f : ListFilter) (q : Option Text) (limit : ℕ) (w : World)
      → (items : List ListItem) × ((list_rows env by_time viewer f q limit w).0 ≡ ok items)
        × IsOrdered items
        × (length items ≤ 100)
  unfolding list_rows people_views find_by_ids ◌>>=◌ and_then gets pure
  listed viewer f q limit w =
      let (skip, v, e) = restricted-ok viewer.id w in
      let rows = rows_of env by_time viewer.id w in
      let people =
        public_users viewer (filter (λ u. mem u.id (people_ids env viewer.id rows)) v.users) v in
      answered limit _ (rw e (collect env f viewer.id skip (query_of env q) people rows, refl))

  -- Whatever the filter, the query and the limit, `list` answers, and its answer has at most 100 chats,
  -- pinned ones before the others and, within both, a later time before an earlier one.
  pub list-IsOrdered :
      (viewer : AuthViewer) (f : ListFilter) (q : Option Text) (limit : ℕ) (w : World)
      → (items : List ListItem) × ((list env by_time viewer f q limit w).0 ≡ ok items)
        × IsOrdered items
        × (length items ≤ 100)
  unfolding list pure
  list-IsOrdered viewer calls q limit w = ([], refl, tt, omega arith)
  list-IsOrdered viewer all q limit w = listed viewer all q limit w
  list-IsOrdered viewer unread q limit w = listed viewer unread q limit w
  list-IsOrdered viewer groups q limit w = listed viewer groups q limit w
  list-IsOrdered viewer archived q limit w = listed viewer archived q limit w
