-- ===== src/Handlers/Admin/Migration/Resolving.antt =====
-- Which mappings stand in Redis after a migration.
use mathlib.Core.List.{Memᴰ}
use poselink_api_middleware.Common.{◌≡◌, String, none, Bool, true, false, List, [], ◌∷◌}
use poselink_api_middleware.Redis.{Redis, IsLawful}
use poselink_api_middleware.Common.Decimal.{split}
use poselink_api_middleware.Handlers.Admin.Migration.{Migration, migrate_entry}

module _ {W : Type 0} {R : Redis W} (L : IsLawful R) (before_get before_set : String → W → W) where
  -- Every read of the migration reaches Redis; with `force` there is none.
  abbrev pub Reads : Bool → List (String × String) → Migration W → Type 0
  Reads true mappings m = Unit {0}
  Reads false [] m = Unit {0}
  Reads false ((key, serial) ∷ mappings) m =
      (L.down (before_get key m.world) ≡ none)
      × Reads false mappings (migrate_entry R before_get before_set false key serial m)

  -- The serial number of a merchant and terminal in the configuration.
  abbrev pub Configured : List (String × String) → String → String → String → Type 0
  Configured mappings mid tid serial =
      (key other : String)
      → Memᴰ (key, other) mappings
      → split b':' key ≡ mid ∷ (tid ∷ [])
      → other ≡ serial
