-- ===== src/Settings/Sounds.antt =====
-- A sound that is not on offer (src/settings/settings.service.ts).
use chatwave_backend.Base.{◌≡◌, refl, false, some}
use chatwave_backend.Base.Rows.{find_row}
use chatwave_backend.Schema.User.{User, AuthViewer}
use chatwave_backend.Schema.Settings.{StoredSettings}
use chatwave_backend.World.State.{
  World, thrown, gets, pure, throw, throw_if, or_throw, and_then, ◌>>=◌, ◌>>◌, bad_request,
}
use chatwave_backend.World.Effects.{user_id}
use chatwave_backend.Users.{find_active_by_id, visible_user}
use chatwave_backend.Users.Store.{require_active}
use chatwave_backend.Settings.Merge.{merge_settings, are_allowed}
use chatwave_backend.Settings.Service.{update}

-- Where the favourites that a patch would leave name a sound that is not on offer for its event, the
-- update throws and writes nothing.
update-are_allowed :
    (viewer : AuthViewer) (patch : StoredSettings) (w : World) (row : User)
    → visible_user (find_row user_id viewer.id w.users) ≡ some row
    → are_allowed (merge_settings row.settings patch).sound_favorites ≡ false
    → update viewer patch w ≡ (thrown (bad_request "That sound is not available"), w)
unfolding update require_active find_active_by_id or_throw throw_if throw ◌>>=◌ ◌>>◌ gets pure
    and_then
update-are_allowed viewer patch w row here bad = rw (here, bad) refl
