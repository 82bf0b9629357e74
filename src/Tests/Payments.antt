-- ===== src/Tests/Payments.antt =====
-- Payments on concrete inputs: a request, the device's response, the timeout.
use poselink_api_middleware.Common.{
  ℕ, ◌≡◌, ◌⊎◌, refl, none, some, false, [], ◌∷◌, ok, arith, eq_iff,
}
use poselink_api_middleware.Common.Int.{pos}
use poselink_api_middleware.Common.Texts.{trim_space}
use poselink_api_middleware.Models.{Transaction, status_timeout}
use poselink_api_middleware.Redis.Memory.{Server, memory}
use poselink_api_middleware.Store.Stamp.{stamp}
use poselink_api_middleware.Store.RedisStore.{store, load, update}
use poselink_api_middleware.Store.RedisStore.Keys.{transaction_key}
use poselink_api_middleware.Store.RedisStore.Contract.{redis_store}
use poselink_api_middleware.Mapper.Keys.{mapping_key}
use poselink_api_middleware.Mapper.RedisMapper.{get_serial_number, set_mapping, redis_mapper}
use poselink_api_middleware.Http.{
  Body, ResponseWriter, new_writer, status_body, edc_body, write_error_response,
  write_json_response,
}
use poselink_api_middleware.Handlers.Hold.{is_hold_enabled}
use poselink_api_middleware.Handlers.Edc.{Channels, status_of, handle_edc_response}
use poselink_api_middleware.Handlers.Edc.Signals.{IsUnsignalled, handle_edc_response-IsUnsignalled}
use poselink_api_middleware.Handlers.Transaction.{
  TransactionHandler, ticked, ended, Schedule, answered, set_timeout, held, poll,
  handle_transaction, handle_transaction_status,
}
use poselink_api_middleware.Handlers.Transaction.Polling.{Answer, poll-Answer}
use poselink_api_middleware.Handlers.Transaction.Answers.{
  respond_with, handle_transaction-responded, poll-timeout, poll-timeout_overwrites,
}
use poselink_api_middleware.Handlers.Transaction.Ending.{handle_transaction-ends}
use poselink_api_middleware.Handlers.Transaction.Rejections.{
  handle_transaction-refused, handle_transaction_status-responded,
}
use poselink_api_middleware.Tests.Codec.{text_codec, text_codec-IsLawful}
use poselink_api_middleware.Tests.Samples.{
  paid_response, request, sale, server, quiet_store, quiet_store-IsLawful,
}

runs : Unit {0}
unfolding store load update memory text_codec transaction_key stamp get_serial_number set_mapping
    mapping_key held is_hold_enabled handle_transaction handle_edc_response status_of
    handle_transaction_status poll trim_space write_json_response
runs = tt

-- A publisher that always succeeds.
abbrev handler : TransactionHandler Server
handler = record {
  store = redis_store quiet_store;
  mapper = redis_mapper memory;
  publisher = record { publish_payment_request = λ w serial token trx_id. (w, ok tt) };
  hold = some (record { redis_client = memory });
  timeout_duration = pos 60;
}

-- The server with a mapping for the merchant.
ready : Server
unfolding runs
ready = (set_mapping memory server "M1" "7" "SN1").0

-- The server once the sale is stored.
waiting_server : Server
unfolding ready
waiting_server = (store quiet_store ready "T1" (some sale)).0

abbrev still : Server → Server
still s = s

abbrev channels : Channels
channels c = false

abbrev responds : Server → Server
responds s = respond_with handler still channels paid_response s

abbrev schedule : Schedule Server
schedule = record {
  notify_chan = 4;
  before_store = still;
  before_hold = still;
  before_publish = still;
  turns = ticked still ∷ ticked responds ∷ [];
}

-- The device does not respond.
abbrev idle : Schedule Server
idle = record schedule { turns = ticked still ∷ ended still ∷ [] }

abbrev pending_sale : Transaction
pending_sale = record sale { created_at = 3; updated_at = 3; notify_chan = none }

handle_transaction-responded_example :
    handle_transaction handler schedule ready new_writer (ok request)
    ≡ answered
        (responds waiting_server)
        (write_json_response 200 (edc_body paid_response) new_writer)
unfolding runs waiting_server
handle_transaction-responded_example =
    handle_transaction-responded handler quiet_store-IsLawful schedule ready waiting_server
      waiting_server request new_writer (ticked still ∷ []) [] still channels paid_response
      ("SN1", (λ e. ground (arith, eq_iff "T1" "")), refl, refl, refl, refl) refl
      (pending_sale, refl, refl, refl) refl tt

poll-Answer_example :
    Answer handler "T1" new_writer
      (responds waiting_server)
      (write_json_response 200 (edc_body paid_response) new_writer)
unfolding runs waiting_server
poll-Answer_example =
    poll-Answer handler "T1" (ticked still ∷ ticked responds ∷ []) waiting_server new_writer
      (responds waiting_server) (write_json_response 200 (edc_body paid_response) new_writer) refl

poll-timeout_example :
    (tx : Transaction) × (poll handler
        (ticked still ∷ ended still ∷ [])
        waiting_server
        new_writer
        "T1"
      ≡ answered
          (handler.store.update waiting_server "T1" (some set_timeout)).0
          (write_error_response 408 "transaction timeout" new_writer))
    × (handler.store.load (handler.store.update waiting_server "T1" (some set_timeout)).0 "T1"
        ≡ some tx)
    × (tx.status ≡ status_timeout)
unfolding runs waiting_server
poll-timeout_example =
    poll-timeout handler quiet_store-IsLawful "T1" (ticked still ∷ []) [] still waiting_server
      waiting_server new_writer (pending_sale, refl, refl, refl) refl

poll-timeout_overwrites_example :
    (before after : Transaction) × (last : Server) × (handler.store.load
        (responds waiting_server)
        "T1"
      ≡ some before)
    × (before.status ≡ status_of paid_response)
    × (before.response_data ≡ some paid_response)
    × (poll handler (ticked still ∷ ended responds ∷ []) waiting_server new_writer "T1"
        ≡ answered last (write_error_response 408 "transaction timeout" new_writer))
    × (handler.store.load last "T1" ≡ some after)
    × (after.status ≡ status_timeout)
unfolding runs waiting_server
poll-timeout_overwrites_example =
    poll-timeout_overwrites handler quiet_store-IsLawful (ticked still ∷ []) [] waiting_server
      waiting_server new_writer still channels paid_response (pending_sale, refl, refl, refl) tt
      refl

abbrev refused : ResponseWriter
refused = write_error_response 400 "transaction_id is required" new_writer

handle_transaction-refused_example :
    ((ready ≡ ready) × ((refused.status ≡ some 400) ⊎ (refused.status ≡ some 404)))
    ⊎ ((refused.status ≡ some 200)
        ⊎ ((refused.status ≡ some 408)
            ⊎ ((refused.status ≡ some 500) ⊎ (refused.status ≡ some 503))))
unfolding runs
handle_transaction-refused_example =
    handle_transaction-refused handler schedule ready ready (ok (record request { trx_id = "  " }))
      refused refl

handle_transaction_status-responded_example :
    handle_transaction_status handler (responds waiting_server) new_writer "T1"
    ≡ write_json_response 200
        (status_body (record { status = "SUCCESS"; response = some paid_response }))
        new_writer
unfolding runs waiting_server
handle_transaction_status-responded_example =
    handle_transaction_status-responded handler quiet_store-IsLawful still waiting_server channels
      paid_response new_writer tt (λ e. ground (arith, eq_iff "T1" ""))

handle_transaction-ends_example :
    (w' : Server) × (code : ℕ) × (answer : Body) × (handle_transaction handler idle ready new_writer
        (ok request)
      ≡ answered w' (write_json_response code answer new_writer))
handle_transaction-ends_example =
    handle_transaction-ends handler idle ready new_writer (ok request) tt

handle_edc_response-IsUnsignalled_example :
    ((handle_edc_response
        (record { store = redis_store quiet_store })
        still
        waiting_server
        channels
        paid_response).1
      ≡ channels)
    × IsUnsignalled
        (handle_edc_response
          (record { store = redis_store quiet_store })
          still
          waiting_server
          channels
          paid_response).2
handle_edc_response-IsUnsignalled_example =
    handle_edc_response-IsUnsignalled quiet_store text_codec-IsLawful still waiting_server channels
      paid_response
