-- ===== src/Tests/Stores.antt =====
-- The store in Redis on concrete inputs.
use poselink_api_middleware.Common.{◌≡◌, refl, none, some, err}
use poselink_api_middleware.Models.{Transaction}
use poselink_api_middleware.Redis.Memory.{
  Server, memory, memory-IsLawful, quiet-IsFair, busy-IsFair,
}
use poselink_api_middleware.Store
use poselink_api_middleware.Store.RedisStore.Contract.{
  redis_store, redis_promise, redis_store-IsLawful,
}
use poselink_api_middleware.Store.Stamp.{stamp}
use poselink_api_middleware.Store.RedisStore.{store, load, update}
use poselink_api_middleware.Store.RedisStore.Keys.{transaction_key}
use poselink_api_middleware.Store.RedisStore.Saving.{without_chan, load-store}
use poselink_api_middleware.Store.RedisStore.Updating.{Committed, update-Committed}
use poselink_api_middleware.Tests.Codec.{text_codec, text_codec-IsLawful}
use poselink_api_middleware.Tests.Samples.{sale, server, quiet_store, busy_store}

runs : Unit {0}
unfolding store load update memory text_codec transaction_key stamp
runs = tt

abbrev fail_sale : Transaction → Transaction
fail_sale tx = record tx { status = "FAILED" }

-- The server with the sale on it.
held : Server
unfolding runs
held = (store quiet_store server "T1" (some sale)).0

load-store_example :
    load quiet_store (store quiet_store server "T1" (some sale)).0 "T1"
    ≡ some (without_chan (stamp 3 sale))
unfolding runs
load-store_example =
    load-store quiet_store memory-IsLawful text_codec-IsLawful server "T1" sale refl

-- The first attempt meets a conflict, and the second succeeds.
conflict_run :
    load busy_store (update busy_store held "T1" (some fail_sale)).0 "T1"
    ≡ some (record sale { status = "FAILED"; created_at = 3; updated_at = 3; notify_chan = none })
unfolding runs held
conflict_run = refl

update-Committed_example :
    Committed busy_store held (update busy_store held "T1" (some fail_sale)).0 "T1" fail_sale
unfolding runs held
update-Committed_example =
    update-Committed busy_store memory-IsLawful text_codec-IsLawful quiet-IsFair busy-IsFair held
      "T1" fail_sale refl

missing_run : (update quiet_store server "T1" (some fail_sale)).1 ≡ err "transaction not found: T1"
unfolding runs
missing_run = refl

redis_store-IsLawful_example : Store.IsLawful (redis_store busy_store) (redis_promise busy_store)
redis_store-IsLawful_example =
    redis_store-IsLawful busy_store memory-IsLawful text_codec-IsLawful quiet-IsFair busy-IsFair
