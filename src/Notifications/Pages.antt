-- ===== src/Notifications/Pages.antt =====
-- `list`, `markRead` and `markOne` of src/notifications/notifications.service.ts.
use chatwave_backend.Base.{
  ℕ, zero, suc, ◌+◌, Bool, true, ◌&&◌, ◌||◌, not, Option, none, some, List, [], ◌∷◌, ◌==◌, ltb,
  if◌then◌else◌, map, filter, find, length, take, mem, is_none, min, update_first,
}
use chatwave_backend.Env.{Env, is_mongo_id}
use chatwave_backend.Schema.User.{AuthViewer}
use chatwave_backend.Schema.Notification.{Notification}
use chatwave_backend.World.State.{
  World, Emit, Action, pure, gets, modify, ◌>>=◌, ◌>>◌, throw_if, or_throw, when, not_found,
}
use chatwave_backend.World.Effects.{emit}
use chatwave_backend.Notifications.Service.{is_unread_of, unread_count}

-- The answer of `list`.
pub record Page : Type 0 where
  pub rows : List Notification
  pub unread : ℕ
  pub next_cursor : Option ℕ

-- `sort({ createdAt: -1 })`
abbrev pub insert : Notification → List Notification → List Notification
insert x [] = x ∷ []
insert x (y ∷ ys) = if ltb y.created_at x.created_at then x ∷ y ∷ ys else y ∷ insert x ys

unfoldable pub newest_first : List Notification → List Notification
newest_first [] = []
newest_first (x ∷ xs) = insert x (newest_first xs)

abbrev pub is_older : Option ℕ → Notification → Bool
is_older none n = true
is_older (some before) n = ltb n.created_at before

-- The filter of the query; `before` is the time that the cursor stands for.
unfoldable pub is_listed : ℕ → Bool → Option ℕ → Notification → Bool
is_listed user unread_only before n =
    n.user == user && (not unread_only || is_none n.read_at) && is_older before n

abbrev pub last_id : List Notification → Option ℕ
last_id [] = none
last_id (n ∷ []) = some n.id
last_id (n ∷ m ∷ ns) = last_id (m ∷ ns)

-- `query.limit || 30`, between 1 and 100
abbrev pub page_size : Option ℕ → ℕ
page_size none = 30
page_size (some zero) = 30
page_size (some (suc n)) = min (suc n) 100

-- The page of the rows that the query finds, newest first.
abbrev pub page_rows : ℕ → List Notification → List Notification
page_rows size found = take size found

unfoldable pub list_page : ℕ → Option ℕ → Bool → Option ℕ → List Notification → Page
list_page user limit unread_only before rows =
    let size = page_size limit in
    let found = take (size + 1) (filter (is_listed user unread_only before) (newest_first rows)) in
    let has_more = ltb size (length found) in
    let page = if has_more then take size found else found in
    record {
      rows = page;
      unread = unread_count user rows;
      next_cursor = if has_more then last_id page else none;
    }

abbrev created_of : Option Notification → Option ℕ
created_of none = none
created_of (some n) = some n.created_at

-- A cursor that is an id stands for the time of its row; one that is a date is not modelled.
unfoldable pub cursor_time : Option ℕ → List Notification → Option ℕ
cursor_time none rows = none
cursor_time (some id) rows = created_of (find (λ n. n.id == id) rows)

unfoldable pub list : AuthViewer → Option ℕ → Bool → Option ℕ → Action Page
list viewer limit unread_only cursor = gets (λ w.
    list_page viewer.id limit unread_only (cursor_time cursor w.notifications) w.notifications)

abbrev pub is_chosen : Env → List ℕ → ℕ → Bool
is_chosen env [] id = true
is_chosen env (i ∷ is) id = mem id (filter (is_mongo_id env) (i ∷ is))

-- An empty list of ids is all of them.
unfoldable pub read_all : Env → ℕ → List ℕ → World → World
read_all env user ids w = record w {
  notifications =
      map
        (λ n.
          if is_unread_of user n && is_chosen env ids n.id
          then record n { read_at = some w.now }
          else n)
        w.notifications;
}

module _ (env : Env) where
  unfoldable pub mark_read : AuthViewer → List ℕ → Action ℕ
  mark_read viewer ids = do
    modify (read_all env viewer.id ids)
    count ← gets (λ w. unread_count viewer.id w.notifications)
    emit (Emit.badge viewer.id count)
    pure count

  unfoldable pub read_one : ℕ → World → World
  read_one id w = record w {
    notifications =
        update_first (λ n. n.id == id) (λ n. record n { read_at = some w.now }) w.notifications;
  }

  unfoldable pub mark_notification : AuthViewer → ℕ → Action (Unit {0})
  mark_notification viewer id = do
    throw_if (not (is_mongo_id env id)) (not_found "Notification not found")
    found ← gets (λ w. find (λ n. n.id == id && n.user == viewer.id) w.notifications)
    row ← or_throw found (not_found "Notification not found")
    when (is_none row.read_at) do
      modify (read_one id)
      count ← gets (λ w. unread_count viewer.id w.notifications)
      emit (Emit.badge viewer.id count)
