-- ===== src/Notifications/Reading.antt =====
-- What marking as read does (`markRead` of src/notifications/notifications.service.ts).
use chatwave_backend.Base.{
  ℕ, ◌≡◌, refl, ap, ◌∙◌, true, ◌&&◌, not, some, List, [], ◌∷◌, if◌then◌else◌, map, filter, length,
  arith, Bool-cases, inl, inr,
}
use chatwave_backend.Env.{Env}
use chatwave_backend.Schema.User.{AuthViewer}
use chatwave_backend.Schema.Notification.{Notification}
use chatwave_backend.World.State.{World, ok, modify, gets, pure, and_then, ◌>>=◌, ◌>>◌}
use chatwave_backend.World.Effects.{emit}
use chatwave_backend.Notifications.Service.{unread_count, is_unread_of}
use chatwave_backend.Notifications.Pages.{read_all, mark_read, is_chosen}

-- A notification as `markRead` leaves it.
abbrev read_at_now : Env → ℕ → ℕ → List ℕ → Notification → Notification
read_at_now env now user ids n =
    if is_unread_of user n && is_chosen env ids n.id then record n { read_at = some now } else n

unread_count-read_all :
    (env : Env) (now user : ℕ) (ids : List ℕ) (rows : List Notification)
    → unread_count user (map (read_at_now env now user ids) rows)
      ≡ length (filter (λ n. is_unread_of user n && not (is_chosen env ids n.id)) rows)
unfolding unread_count
unread_count-read_all env now user ids [] = refl
unread_count-read_all env now user ids (n ∷ ns) =
    let rest = unread_count-read_all env now user ids ns in
    elim (Bool-cases (is_unread_of user n)) [
      | inl t ↦ elim (Bool-cases (is_chosen env ids n.id)) [
        | inl c ↦ rw (t, c) (ground arith)
        | inr c ↦ rw (t, c) (ground arith)
      ]
      | inr f ↦ rw f (ground arith)
    ]

-- Marking ids as read answers the number of the viewer's unread notifications that are none of them;
-- with no id given that is 0, and an id that is no ObjectId counts for nothing.
mark_read-unread :
    (env : Env) (viewer : AuthViewer) (ids : List ℕ) (w : World)
    → ((mark_read env viewer ids w).0
        ≡ ok (
            length (
              filter
                (λ n. is_unread_of viewer.id n && not (is_chosen env ids n.id))
                w.notifications)))
      × ((mark_read env viewer [] w).0 ≡ ok 0)
unfolding mark_read read_all emit ◌>>=◌ ◌>>◌ gets pure modify and_then
mark_read-unread env viewer ids w = (
  ap ok (unread_count-read_all env w.now viewer.id ids w.notifications),
  ap ok (
      unread_count-read_all env w.now viewer.id [] w.notifications
      ∙ none_left viewer.id w.notifications),
)
  where
    none_left :
        (user : ℕ) (rows : List Notification)
        → length (filter (λ n. is_unread_of user n && not true) rows) ≡ 0
    none_left user [] = refl
    none_left user (n ∷ ns) = ground (arith, none_left user ns)
