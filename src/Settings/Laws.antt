-- ===== src/Settings/Laws.antt =====
-- What merging settings does (src/settings/settings.constants.ts).
use chatwave_backend.Base.{◌≡◌, refl, Option, none, some}
use chatwave_backend.Base.Text.{Text}
use chatwave_backend.Schema.Settings.{StoredSettings, StoredFavorites, FavoritesDto, UserSettings}
use chatwave_backend.Settings.Merge.{
  merge_settings, merge_favorites, stored, no_settings, pick, pick_favorite, dto_favorites,
}

-- Settings that are stored are read back as they were, whatever they are.
merge_settings-stored : (s : UserSettings) → merge_settings (stored s) no_settings ≡ s
unfolding merge_settings stored merge_favorites pick_favorite
merge_settings-stored s = refl

pick-again {ℓ} : {A : Type ℓ} (p c : Option A) (d : A) → pick p (some (pick p c d)) d ≡ pick p c d
pick-again none c d = refl
pick-again (some a) c d = refl

pick_favorite-again :
    (p c : Option (Option Text)) (d : Text)
    → pick_favorite p (some (some (pick_favorite p c d))) d ≡ pick_favorite p c d
unfolding pick_favorite
pick_favorite-again none c d = refl
pick_favorite-again (some none) c d = refl
pick_favorite-again (some (some s)) c d = refl

-- Applying a patch a second time changes nothing.
merge_settings-again :
    (src patch : StoredSettings)
    → merge_settings (stored (merge_settings src patch)) patch ≡ merge_settings src patch
unfolding merge_settings stored merge_favorites
merge_settings-again src patch = simp (pick-again, pick_favorite-again)

pick_favorite-given :
    (v : Option Text) (c : Option (Option Text)) (d : Text)
    → pick_favorite (some v) c d ≡ pick_favorite (some v) none d
unfolding pick_favorite
pick_favorite-given none c d = refl
pick_favorite-given (some s) c d = refl

-- A patch of favourites that is an instance of the DTO's class overwrites all the stored favourites,
-- those too that the request left out, with the defaults.
pub merge_favorites-dto :
    (current : Option StoredFavorites) (dto : FavoritesDto)
    → merge_favorites current (some (dto_favorites dto))
      ≡ merge_favorites none (some (dto_favorites dto))
unfolding merge_favorites dto_favorites
merge_favorites-dto current dto = simp pick_favorite-given
