-- ===== src/Tests/Lifecycles.antt =====
-- The life of a transaction in a store that keeps what it is given.
use poselink_api_middleware.Common.{refl, String, none, some, ok}
use poselink_api_middleware.Common.Int.{pos}
use poselink_api_middleware.Common.Texts.{ne_of_eq-false}
use poselink_api_middleware.Models.{Transaction, PaymentRequest}
use poselink_api_middleware.Redis.Memory.{Server, memory, memory-IsLawful, quiet-IsFair}
use poselink_api_middleware.Store.{TransactionStore}
use poselink_api_middleware.Store.Stamp.{stamp}
use poselink_api_middleware.Store.RedisStore.{store, load}
use poselink_api_middleware.Store.RedisStore.Keys.{transaction_key}
use poselink_api_middleware.Http.{new_writer}
use poselink_api_middleware.Handlers.Edc.{status_of}
use poselink_api_middleware.Handlers.Transaction.{
  TransactionHandler, new_transaction, handle_transaction_status,
}
use poselink_api_middleware.Handlers.Lifecycle.{
  Ledger, put, submitted_tx, responded_tx, Step, submitted, responded, Reach, empty, later,
}
use poselink_api_middleware.Handlers.Lifecycle.Invariant.{
  IsConsistent, Reach-IsConsistent, IsReport, handle_transaction_status-IsReport,
}
use poselink_api_middleware.Handlers.Lifecycle.Writes.{request, Moment, Write-Step}
use poselink_api_middleware.Handlers.Lifecycle.Running.{IsReached, Write-IsReached}
use poselink_api_middleware.Tests.Codec.{text_codec, text_codec-IsLawful}
use poselink_api_middleware.Tests.Samples
use poselink_api_middleware.Tests.Samples.{paid_response, server, quiet_store}

runs : Unit {0}
unfolding store load memory text_codec transaction_key stamp status_of
runs = tt

abbrev payment : PaymentRequest
payment = record Samples.request { trx_id = "T1" }

abbrev first : Transaction
first = submitted_tx 3 4 none payment

abbrev second : Transaction
second = responded_tx 5 none paid_response first

abbrev ledger : Ledger
ledger = put (put (λ j. none) "T1" (some first)) "T1" (some second)

ledger-Reach : Reach ledger
ledger-Reach =
    later (later (empty (λ j. refl)) (submitted 3 4 none payment (λ (j : String). refl)))
      (responded 5 none paid_response first refl (λ (j : String). refl))

Reach-IsConsistent_example : IsConsistent second
Reach-IsConsistent_example = Reach-IsConsistent "T1" second ledger-Reach refl

-- A store that is its ledger.
abbrev ledger_store : TransactionStore Ledger
ledger_store = record {
  store = λ s trx_id tx. (put s trx_id tx, ok tt);
  load = λ s trx_id. s trx_id;
  update = λ s trx_id f. (s, ok tt);
}

abbrev handler : TransactionHandler Ledger
handler = record {
  store = ledger_store;
  mapper = record { get_serial_number = λ s mid tid. ok "SN1" };
  publisher = record { publish_payment_request = λ s serial token trx_id. (s, ok tt) };
  hold = none;
  timeout_duration = pos 60;
}

handle_transaction_status-IsReport_example :
    IsReport new_writer (handle_transaction_status handler ledger new_writer "T1")
handle_transaction_status-IsReport_example =
    handle_transaction_status-IsReport handler ledger new_writer "T1" second ledger-Reach
      (ne_of_eq-false "T1" "" refl) refl

Write-Step_example :
    (mid : Server) × Moment quiet_store server mid
    × Step
        (load quiet_store mid)
        (load quiet_store (store quiet_store server "T1" (some (new_transaction 4 payment))).0)
unfolding runs
Write-Step_example =
    Write-Step quiet_store memory-IsLawful text_codec-IsLawful quiet-IsFair quiet-IsFair
      {w = server} (request 4 payment refl)

-- Nothing is stored yet.
server-IsReached : IsReached quiet_store server
unfolding runs
server-IsReached = empty (λ j. refl)

Write-IsReached_example :
    IsReached quiet_store (store quiet_store server "T1" (some (new_transaction 4 payment))).0
unfolding runs
Write-IsReached_example =
    Write-IsReached quiet_store memory-IsLawful text_codec-IsLawful quiet-IsFair quiet-IsFair
      (λ i w r. r) (λ i w r. r) {w = server} (request 4 payment refl) tt server-IsReached
