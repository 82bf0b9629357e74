-- ===== src/Tests/Administration.antt =====
-- Migrations and lifetimes on concrete inputs.
use mathlib.Core.List.{Memᴰ}
use poselink_api_middleware.Common.{
  ◌-◌, ◌*◌, ◌^◌, ◌≡◌, ◌≢◌, refl, String, false, none, some, List, [], ◌∷◌, ok, arith,
}
use poselink_api_middleware.Common.Int.{pos, negsuc}
use poselink_api_middleware.Common.Texts.{ne_of_eq-false}
use poselink_api_middleware.Common.Decimal.{split}
use poselink_api_middleware.Common.Durations.{second}
use poselink_api_middleware.Http.{new_writer}
use poselink_api_middleware.Redis.Memory.{Server, memory, memory-IsLawful, down-memory}
use poselink_api_middleware.Mapper.Keys.{mapping_key}
use poselink_api_middleware.Mapper.RedisMapper.{get_serial_number, set_mapping}
use poselink_api_middleware.Store.RedisStore.Keys.{transaction_key}
use poselink_api_middleware.Handlers.Admin.Ttl.{path_trx_id, extend_transaction_ttl}
use poselink_api_middleware.Handlers.Admin.Ttl.Laws.{
  extended, extend_transaction_ttl-Takes, extend_transaction_ttl-wraps,
}
use poselink_api_middleware.Handlers.Admin.Migration.{migrate_entry, migrate_entries, start}
use poselink_api_middleware.Handlers.Admin.Migration.Unread.{migrate_entry-overwrites}
use poselink_api_middleware.Tests.Samples.{server}

runs : Unit {0}
unfolding get_serial_number set_mapping memory mapping_key migrate_entry migrate_entries split
    transaction_key path_trx_id extend_transaction_ttl
runs = tt

-- Two entries.
abbrev mapping : List (String × String)
mapping = ("M1:7", "SN1") ∷ (("M2:7", "SN2") ∷ [])

-- Nobody else writes.
abbrev still : String → Server → Server
still key w = w

-- The mapping is there with another serial number before the migration.
abbrev mapped : Server
mapped = (set_mapping memory server "M1" "7" "SN0").0

-- The connection is lost when the mapping is read, and is back when it is written.
abbrev lose : String → Server → Server
lose key w = record w { down = some "i/o timeout" }

abbrev restore : String → Server → Server
restore key w = record w { down = none }

migrate_entry-overwrites_example :
    (memory-IsLawful.content
        (migrate_entry memory lose restore false "M1:7" "SN1" (start mapped)).world
        (mapping_key "M1" "7")
      ≡ some "SN1")
    × ((migrate_entry memory lose restore false "M1:7" "SN1" (start mapped)).success_count ≡ 1)
    × ((migrate_entry memory lose restore false "M1:7" "SN1" (start mapped)).error_count ≡ 0)
unfolding runs
migrate_entry-overwrites_example =
    migrate_entry-overwrites memory-IsLawful lose restore "M1:7" "M1" "7" "SN1" "i/o timeout"
      (start mapped) refl (down-memory (lose "M1:7" mapped)) refl

-- The server with a transaction.
abbrev holding : Server
holding = (memory.set server (transaction_key "T1") "tx" (60 * second)).0

abbrev path : String
path = "/api/v1/admin/transaction/T1/extend-ttl"

nonempty : ◌≢◌ {A = String} "T1" ""
nonempty = ne_of_eq-false "T1" "" refl

extend_transaction_ttl-Takes_example :
    extend_transaction_ttl memory holding new_writer path (ok (pos 90)) ≡ (
      (memory.expire holding (transaction_key "T1") (pos (90 * second))).0,
      extended "T1" 90 (pos (90 * second)) new_writer,
    )
unfolding runs
extend_transaction_ttl-Takes_example =
    extend_transaction_ttl-Takes memory holding new_writer path "T1" 90 (pos (90 * second)) refl
      nonempty (omega arith) (omega arith)
      (record { count = 0; found = refl; taken = refl; reported = refl })

-- The transaction is gone afterwards.
extend_transaction_ttl-wraps_example :
    extend_transaction_ttl memory holding new_writer path (ok (pos 9_223_372_037)) ≡ (
      (memory.expire holding
          (transaction_key "T1")
          (negsuc (2 ^ 64 - 1 - 9_223_372_037 * second))).0,
      extended "T1" 9_223_372_037 (negsuc 1) new_writer,
    )
unfolding runs
extend_transaction_ttl-wraps_example =
    extend_transaction_ttl-wraps memory holding new_writer path "T1" 9_223_372_037 (negsuc 1) refl
      nonempty (omega arith) (omega arith)
      (record { count = 0; found = refl; taken = refl; reported = refl })
