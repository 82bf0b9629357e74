-- ===== src/Models.antt =====
-- The data of internal/models (request.go, response.go, transaction.go).
-- A `time.Time` is the number of nanoseconds since the zero time, so `IsZero` is `t == 0`; a channel is its
-- number in the table of channels, and a nil pointer or channel is `none`.
use poselink_api_middleware.Common.{ℕ, String, Option}

pub record PaymentRequest : Type 0 where
  pub token : String
  pub mid : String
  pub tid : String
  pub trx_id : String

pub record EdcResponse : Type 0 where
  pub acq_mid : String
  pub acq_tid : String
  pub action : String
  pub amount : String
  pub approval : String
  pub batch_number : String
  pub card_category : String
  pub card_name : String
  pub card_type : String
  pub edc_address : String
  pub is_credit : String
  pub is_off_us : String
  pub method : String
  pub msg : String
  pub pan : String
  pub periode : String
  pub plan : String
  pub pos_address : String
  pub rc : String
  pub reference_number : String
  pub status : String
  pub trace_number : String
  pub transaction_date : String
  pub trx_id : String

-- A Go string type with four named values.
abbrev pub TransactionStatus : Type 0
TransactionStatus = String

abbrev pub status_pending : TransactionStatus
status_pending = "PENDING"

abbrev pub status_success : TransactionStatus
status_success = "SUCCESS"

abbrev pub status_failed : TransactionStatus
status_failed = "FAILED"

abbrev pub status_timeout : TransactionStatus
status_timeout = "TIMEOUT"

pub record Transaction : Type 0 where
  pub trx_id : String
  pub status : TransactionStatus
  pub created_at : ℕ
  pub updated_at : ℕ
  pub request_data : PaymentRequest
  pub response_data : Option EdcResponse
  pub notify_chan : Option ℕ

pub record StatusResponse : Type 0 where
  pub status : String
  pub response : Option EdcResponse

pub record ErrorResponse : Type 0 where
  pub error : String
