-- ===== src/Handlers/Lifecycle.antt =====
-- The life of the transactions in a store: what the handlers of internal/handlers/transaction.go and
-- edc_response.go write, as a step relation on what the store holds.
pub mod Invariant
pub mod Writes
pub mod Running
use poselink_api_middleware.Common.{ℕ, ◌≡◌, String, Option, none, some, str_eq, if◌then◌else◌}
use poselink_api_middleware.Models.{PaymentRequest, EdcResponse, Transaction}
use poselink_api_middleware.Store.Stamp.{stamp}
use poselink_api_middleware.Handlers.Transaction.{new_transaction, set_timeout}
use poselink_api_middleware.Handlers.Edc.{set_response}

-- What a store holds under each transaction's id.
abbrev pub Ledger : Type 0
Ledger = String → Option Transaction

abbrev pub put : Ledger → String → Option Transaction → Ledger
put s trx_id tx j = if str_eq j trx_id then tx else s j

-- What stands in the store after a request, a response and a timeout; a store may change the channel.
abbrev pub submitted_tx : ℕ → ℕ → Option ℕ → PaymentRequest → Transaction
submitted_tx now made chan req = record (stamp now (new_transaction made req)) {
  notify_chan = chan;
}

abbrev pub responded_tx : ℕ → Option ℕ → EdcResponse → Transaction → Transaction
responded_tx now chan r tx = record (set_response r tx) { updated_at = now; notify_chan = chan }

abbrev pub timed_out_tx : ℕ → Option ℕ → Transaction → Transaction
timed_out_tx now chan tx = record (set_timeout tx) { updated_at = now; notify_chan = chan }

-- One write. A request may come again under an id that is in use; a key may expire at any time.
pub data Step (s s' : Ledger) : Type 0 where
  submitted :
      (now made : ℕ) (chan : Option ℕ) (req : PaymentRequest)
      → ((j : String) → s' j ≡ put s req.trx_id (some (submitted_tx now made chan req)) j)
      → Step s s'
  responded :
      (now : ℕ) (chan : Option ℕ) (r : EdcResponse) (tx : Transaction)
      → s r.trx_id ≡ some tx
      → ((j : String) → s' j ≡ put s r.trx_id (some (responded_tx now chan r tx)) j)
      → Step s s'
  timed_out :
      (now : ℕ) (chan : Option ℕ) (trx_id : String) (tx : Transaction)
      → s trx_id ≡ some tx
      → ((j : String) → s' j ≡ put s trx_id (some (timed_out_tx now chan tx)) j)
      → Step s s'
  expired : (trx_id : String) → ((j : String) → s' j ≡ put s trx_id none j) → Step s s'

-- Any number of writes, from an empty store on.
pub data Reach : Ledger → Type 0 where
  empty : {s : Ledger} → ((j : String) → s j ≡ none) → Reach s
  later : {s s' : Ledger} → Reach s → Step s s' → Reach s'
