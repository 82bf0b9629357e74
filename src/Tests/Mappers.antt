-- ===== src/Tests/Mappers.antt =====
-- The mapper in Redis on concrete inputs.
use poselink_api_middleware.Common.{◌≡◌, refl, ok, err, arith}
use poselink_api_middleware.Redis.Memory.{memory, memory-IsLawful}
use poselink_api_middleware.Mapper.Keys.{mapping_key}
use poselink_api_middleware.Mapper.RedisMapper.{get_serial_number, set_mapping, delete_mapping}
use poselink_api_middleware.Mapper.RedisMapper.Laws.{
  get_serial_number-set_mapping, get_serial_number-delete_mapping,
}
use poselink_api_middleware.Tests.Samples.{server}

runs : Unit {0}
unfolding get_serial_number set_mapping delete_mapping memory mapping_key
runs = tt

-- Names with colons share a key.
shared_key : mapping_key "a:tid:b" "c" ≡ mapping_key "a" "b:tid:c"
unfolding mapping_key
shared_key = refl

get_serial_number-set_mapping_example :
    get_serial_number memory (set_mapping memory server "M1" "7" "SN1").0 "M1" "7" ≡ ok "SN1"
unfolding runs
get_serial_number-set_mapping_example =
    get_serial_number-set_mapping memory memory-IsLawful server "M1" "7" "SN1" "M1" "7"
      (omega arith) (omega arith) refl

get_serial_number-delete_mapping_example :
    get_serial_number memory
      (delete_mapping memory (set_mapping memory server "M1" "7" "SN1").0 "M1" "7").0
      "M1"
      "7"
    ≡ err "unknown mid/tid combination: M1:7"
unfolding runs
get_serial_number-delete_mapping_example =
    get_serial_number-delete_mapping memory memory-IsLawful
      (set_mapping memory server "M1" "7" "SN1").0 "M1" "7" "M1" "7" (omega arith) (omega arith)
      refl
