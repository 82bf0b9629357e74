-- ===== src/Tests/Holds.antt =====
-- The hold on concrete inputs.
use poselink_api_middleware.Common.{◌≡◌, refl, some, true, [], ◌∷◌, ok, err}
use poselink_api_middleware.Common.Int.{pos}
use poselink_api_middleware.Common.Texts.{trim_space}
use poselink_api_middleware.Http.{new_writer}
use poselink_api_middleware.Redis.Memory.{Server, memory, memory-IsLawful}
use poselink_api_middleware.Mapper.Keys.{mapping_key}
use poselink_api_middleware.Mapper.RedisMapper.{get_serial_number, set_mapping, redis_mapper}
use poselink_api_middleware.Store.Stamp.{stamp}
use poselink_api_middleware.Store.RedisStore.{store, load, update}
use poselink_api_middleware.Store.RedisStore.Keys.{transaction_key}
use poselink_api_middleware.Store.RedisStore.Contract.{redis_store}
use poselink_api_middleware.Handlers.Hold.{HoldHandler, is_hold_enabled, set_hold}
use poselink_api_middleware.Handlers.Hold.Laws.{is_hold_enabled-set_hold}
use poselink_api_middleware.Handlers.Transaction.{
  TransactionHandler, Schedule, ticked, handle_transaction, held,
}
use poselink_api_middleware.Handlers.Transaction.Holding.{publishing_by, handle_transaction-held}
use poselink_api_middleware.Ably.{AblyPublisher}
use poselink_api_middleware.Tests.Codec.{text_codec}
use poselink_api_middleware.Tests.Samples.{request, server, quiet_store}

runs : Unit {0}
unfolding store load update memory text_codec transaction_key stamp get_serial_number set_mapping
    mapping_key held is_hold_enabled set_hold trim_space
runs = tt

abbrev switch : HoldHandler Server
switch = record { redis_client = memory }

is_hold_enabled-set_hold_example :
    (is_hold_enabled switch (set_hold switch server new_writer (ok true)).0 ≡ true)
    × (memory-IsLawful.content
          (set_hold switch server new_writer (ok true)).0
          (transaction_key "T1")
        ≡ memory-IsLawful.content server (transaction_key "T1"))
unfolding runs
is_hold_enabled-set_hold_example =
    is_hold_enabled-set_hold switch memory-IsLawful server new_writer true "T1" refl

-- A publisher that always fails, which a request that is held back does not notice.
abbrev handler : TransactionHandler Server
handler = record {
  store = redis_store quiet_store;
  mapper = redis_mapper memory;
  publisher = record { publish_payment_request = λ w serial token trx_id. (w, err "no route") };
  hold = some switch;
  timeout_duration = pos 60;
}

abbrev ready : Server
ready = (set_hold switch (set_mapping memory server "M1" "7" "SN1").0 new_writer (ok true)).0

abbrev schedule : Schedule Server
schedule = record {
  notify_chan = 4;
  before_store = λ s. s;
  before_hold = λ s. s;
  before_publish = λ s. s;
  turns = ticked (λ s. s) ∷ [];
}

-- A publisher that takes every message.
abbrev taking : AblyPublisher Server
taking = record { publish_payment_request = λ w serial token trx_id. (w, ok tt) }

handle_transaction-held_example :
    handle_transaction handler schedule ready new_writer (ok request)
    ≡ handle_transaction (publishing_by handler taking) schedule ready new_writer (ok request)
unfolding runs
handle_transaction-held_example =
    handle_transaction-held handler taking schedule new_writer ready request refl
