-- ===== src/Mapper/InMemory.antt =====
-- internal/mapper/mapper.go: mappings from the configuration, a map from "mid:tid" to a serial number.
use poselink_api_middleware.Common.{
  ◌<>◌, String, Option, none, some, List, [], ◌∷◌, Result, ok, err, str_eq, if◌then◌else◌,
}
use poselink_api_middleware.Mapper.Keys.{config_key}

-- A Go map as a list of its entries, in any order; its keys are distinct.
unfoldable pub lookup : String → List (String × String) → Option String
lookup k [] = none
lookup k ((j, v) ∷ m) = if str_eq k j then some v else lookup k m

unfoldable pub get_serial_number : List (String × String) → String → String → Result String String
unfolding lookup
get_serial_number mappings mid tid = elim (lookup (config_key mid tid) mappings) [
  | none ↦ err ("unknown mid/tid combination: " <> config_key mid tid)
  | some serial_number ↦ ok serial_number
]
