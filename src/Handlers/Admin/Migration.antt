-- ===== src/Handlers/Admin/Migration.antt =====
-- `MigrateMapping` of internal/handlers/admin.go: the mappings of the configuration are written to Redis.
pub mod Laws
pub mod Answers
pub mod Resolving
pub mod Entries
pub mod Unread
use poselink_api_middleware.Common.{
  ℕ, ◌+◌, ◌<>◌, String, Option, none, some, Bool, true, false, List, [], ◌∷◌, ◌++◌, Result, ok, err,
  Done, if◌then◌else◌,
}
use poselink_api_middleware.Common.Int.{pos}
use poselink_api_middleware.Common.Decimal.{decimal, split}
use poselink_api_middleware.Redis.{Redis}
use poselink_api_middleware.Mapper.RedisMapper.{get_serial_number, set_mapping}
use poselink_api_middleware.Handlers.Admin.{AdminHandler}
use poselink_api_middleware.Http.{ResponseWriter, text, number, texts, object, write_json_response}

-- The variables of the loop, and the world.
pub record Migration (W : Type 0) : Type 0 where
  pub world : W
  pub success_count : ℕ
  pub error_count : ℕ
  pub errors : List String

abbrev pub add_error : {W : Type 0} → String → Migration W → Migration W
add_error message m = record m {
  error_count = m.error_count + 1;
  errors = m.errors ++ (message ∷ []);
}

-- Each entry sends up to two commands: other clients act, and the connection may change, before the read of an entry
-- (`before_get`) and before its write (`before_set`), which both have the entry's key.
module _ {W : Type 0} (mapper : Redis W) (before_get before_set : String → W → W)
    (force : Bool) where
  stored : String → String → Migration W → W × Done → Migration W
  stored mid tid m (w, ok done) = record m { world = w; success_count = m.success_count + 1 }
  stored mid tid m (w, err e) =
      add_error ("failed to migrate mapping " <> mid <> ":" <> tid <> ": " <> e)
        (record m { world = w })

  write : String → String → String → String → Migration W → Migration W
  write mid tid key serial_number m =
      stored mid tid m (set_mapping mapper (before_set key m.world) mid tid serial_number)

  -- A mapping that is there is skipped; any error of the read lets the write go ahead.
  unless_there : Result String String → Migration W → Migration W → Migration W
  unless_there (ok serial) m written = m
  unless_there (err e) m written = written

  read : String → Migration W → Migration W
  read key m = record m { world = before_get key m.world }

  migrate_parts : List String → String → String → Migration W → Migration W
  migrate_parts (mid ∷ (tid ∷ [])) key serial_number m =
      if force
      then write mid tid key serial_number m
      else unless_there (get_serial_number mapper (before_get key m.world) mid tid) (read key m)
          (write mid tid key serial_number (read key m))
  migrate_parts _ key serial_number m =
      add_error ("invalid mapping key format: " <> key <> " (expected 'mid:tid')") m

  -- One round of the loop.
  unfoldable pub migrate_entry : String → String → Migration W → Migration W
  unfolding migrate_parts unless_there write stored read
  migrate_entry key serial_number m = migrate_parts (split b':' key) key serial_number m

  -- The loop over the configured mappings, in the order in which Go's `range` visits them.
  unfoldable pub migrate_entries : List (String × String) → Migration W → Migration W
  migrate_entries [] m = m
  migrate_entries ((key, serial_number) ∷ mappings) m =
      migrate_entries mappings (migrate_entry key serial_number m)

abbrev pub start : {W : Type 0} → W → Migration W
start w = record { world = w; success_count = 0; error_count = 0; errors = [] }

-- A body that does not decode stands for `force = false`.
abbrev pub force_of : Result String Bool → Bool
force_of (ok force) = force
force_of (err e) = false

abbrev report : {W : Type 0} → Migration W → ResponseWriter → W × ResponseWriter
report m out = (
  m.world,
  write_json_response 200
      (object (
        (
          "message",
          text (
              "migration completed: "
              <> decimal m.success_count
              <> " successful, "
              <> decimal m.error_count
              <> " errors"),
        )
        ∷ (("success_count", number (pos m.success_count))
            ∷ (("error_count", number (pos m.error_count)) ∷ (("errors", texts m.errors) ∷ [])))))
      out,
)

unfoldable pub migrate_mapping :
    {W : Type 0}
    → AdminHandler W
    → W
    → ResponseWriter
    → Result String Bool
    → List (String × String)
    → W × ResponseWriter
migrate_mapping h w out body mappings =
    report (migrate_entries h.mapper h.before_get h.before_set (force_of body) mappings (start w))
      out
