-- ===== src/Tests/Samples.antt =====
-- Sample data: a server in memory with a mapping, a store on it, a request and a response.
use poselink_api_middleware.Common.{none, some, []}
use poselink_api_middleware.Models.{EdcResponse, PaymentRequest, Transaction}
use poselink_api_middleware.Redis.Memory.{
  Server, memory, memory-IsLawful, quiet, busy, quiet-IsFair,
}
use poselink_api_middleware.Store
use poselink_api_middleware.Store.RedisStore.{RedisTransactionStore, new_redis_transaction_store}
use poselink_api_middleware.Store.RedisStore.Contract.{
  redis_store, redis_promise, redis_store-IsLawful,
}
use poselink_api_middleware.Tests.Codec.{text_codec, text_codec-IsLawful}

abbrev pub paid_response : EdcResponse
paid_response = record {
  acq_mid = "";
  acq_tid = "";
  action = "";
  amount = "";
  approval = "";
  batch_number = "";
  card_category = "";
  card_name = "";
  card_type = "";
  edc_address = "";
  is_credit = "";
  is_off_us = "";
  method = "";
  msg = "";
  pan = "";
  periode = "";
  plan = "";
  pos_address = "";
  rc = "";
  reference_number = "";
  trace_number = "";
  transaction_date = "";
  status = "paid";
  trx_id = "T1";
}

abbrev pub request : PaymentRequest
request = record { token = "tok"; mid = "M1"; tid = "7"; trx_id = " T1 " }

abbrev pub sale : Transaction
sale = record {
  trx_id = "T1";
  status = "PENDING";
  created_at = 0;
  updated_at = 0;
  request_data = record request { trx_id = "T1" };
  response_data = none;
  notify_chan = some 4;
}

abbrev pub quiet_store : RedisTransactionStore Server
quiet_store = new_redis_transaction_store memory text_codec (λ s. s.time) quiet quiet

abbrev pub busy_store : RedisTransactionStore Server
busy_store = new_redis_transaction_store memory text_codec (λ s. s.time) quiet busy

-- At time 3.
abbrev pub server : Server
server = record { entries = []; time = 3; writes = 0; down = none }

pub quiet_store-IsLawful : Store.IsLawful (redis_store quiet_store) (redis_promise quiet_store)
quiet_store-IsLawful =
    redis_store-IsLawful quiet_store memory-IsLawful text_codec-IsLawful quiet-IsFair quiet-IsFair
