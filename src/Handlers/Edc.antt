-- ===== src/Handlers/Edc.antt =====
-- internal/handlers/edc_response.go: the handler of the devices' responses.
pub mod Laws
pub mod Signals
use poselink_api_middleware.Common.{
  ℕ, ◌==◌, String, Option, none, some, Bool, true, false, ◌||◌, Result, ok, err, Done, str_eq,
  if◌then◌else◌,
}
use poselink_api_middleware.Models.{
  EdcResponse, Transaction, TransactionStatus, status_success, status_failed,
}
use poselink_api_middleware.Store.{TransactionStore}

pub record EdcResponseHandler (W : Type 0) : Type 0 where
  pub store : TransactionStore W

-- How the handler ended: it returned early, or it updated the transaction and then notified a channel, found
-- the channel full, or had no channel.
pub data Handled : Type 0 where
  missing_trx_id not_found : Handled
  update_error : String → Handled
  notified channel_full no_channel : Handled

-- The tokens in the channels, each of capacity 1.
abbrev pub Channels : Type 0
Channels = ℕ → Bool

unfoldable pub status_of : EdcResponse → TransactionStatus
status_of response =
    if str_eq response.status "success"
      || str_eq response.status "SUCCESS"
      || str_eq response.status "paid"
    then status_success
    else status_failed

-- The function that is handed to `Update`.
abbrev pub set_response : EdcResponse → Transaction → Transaction
set_response response tx = record tx { status = status_of response; response_data = some response }

module _ {W : Type 0} (h : EdcResponseHandler W) where
  -- The non-blocking send.
  notify : Option ℕ → Channels → Channels × Handled
  notify none channels = (channels, no_channel)
  notify (some c) channels =
      if channels c
      then (channels, channel_full)
      else (λ d. if d == c then true else channels d, notified)

  updated : Transaction → Channels → W × Done → W × Channels × Handled
  updated tx channels (w, err e) = (w, channels, update_error e)
  updated tx channels (w, ok done) =
      let (channels', result) = notify tx.notify_chan channels in (w, channels', result)

  -- `acts` is what the rest of the world does between the load and the update.
  unfoldable pub handle_edc_response : (W → W) → W → Channels → EdcResponse → W × Channels × Handled
  unfolding updated notify
  handle_edc_response acts w channels response =
      if str_eq response.trx_id ""
      then (w, channels, missing_trx_id)
      else elim (h.store.load w response.trx_id) [
        | none ↦ (w, channels, not_found)
        | some tx ↦
            updated tx channels
              (h.store.update (acts w) response.trx_id (some (set_response response)))
      ]
