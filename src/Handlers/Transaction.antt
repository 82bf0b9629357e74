-- ===== src/Handlers/Transaction.antt =====
-- internal/handlers/transaction.go: the handlers of payments and of their status.
pub mod Polling
pub mod Answers
pub mod Rejections
pub mod Holding
pub mod Ending
pub mod Timing
pub mod Timely
use poselink_api_middleware.Common.{
  ℕ, ◌*◌, ◌^◌, ◌<>◌, String, Option, none, some, Bool, true, false, ◌||◌, List, [], ◌∷◌, Result, ok,
  err, Done, str_eq, if◌then◌else◌,
}
use poselink_api_middleware.Common.Int.{ℤ, pos, leb_ℤ}
use poselink_api_middleware.Common.Texts.{trim_space}
use poselink_api_middleware.Models.{
  PaymentRequest, EdcResponse, Transaction, StatusResponse, status_pending, status_success,
  status_failed, status_timeout,
}
use poselink_api_middleware.Store.{TransactionStore}
use poselink_api_middleware.Mapper.{MidTidMapper}
use poselink_api_middleware.Ably.{AblyPublisher}
use poselink_api_middleware.Http.{
  ResponseWriter, edc_body, status_body, write_error_response, write_json_response,
}
use poselink_api_middleware.Handlers.Hold.{HoldHandler, is_hold_enabled}

pub record TransactionHandler (W : Type 0) : Type 0 where
  pub store : TransactionStore W
  pub mapper : MidTidMapper W
  pub publisher : AblyPublisher W
  pub hold : Option (HoldHandler W)
  pub timeout_duration : ℤ

-- `NewTransactionHandler`: a timeout that is not positive becomes 60 seconds. Durations are in nanoseconds.
unfoldable pub new_transaction_handler :
    {W : Type 0}
    → TransactionStore W
    → MidTidMapper W
    → AblyPublisher W
    → Option (HoldHandler W)
    → ℤ
    → TransactionHandler W
new_transaction_handler store mapper publisher hold timeout_duration = record {
  store = store;
  mapper = mapper;
  publisher = publisher;
  hold = hold;
  timeout_duration = if leb_ℤ timeout_duration (pos 0) then pos (60 * 10 ^ 9) else timeout_duration;
}

-- A round of the `select` in the polling loop. The rest of the world acts first, as the function says; then
-- the ticker fires, or the context is found done: the timeout has passed or the client has gone.
pub data Turn (W : Type 0) : Type 0 where
  ticked : (W → W) → Turn W
  ended : (W → W) → Turn W

-- The number of the channel that the handler makes, what the rest of the world does between the calls of the
-- handler, and the rounds of its loop.
pub record Schedule (W : Type 0) : Type 0 where
  pub notify_chan : ℕ
  pub before_store : W → W
  pub before_hold : W → W
  pub before_publish : W → W
  pub turns : List (Turn W)

-- Where a handler stands after the turns that it was given.
pub data Outcome (W : Type 0) : Type 0 where
  waiting : W → Outcome W
  answered : W → ResponseWriter → Outcome W

abbrev pub new_transaction : ℕ → PaymentRequest → Transaction
new_transaction notify_chan req = record {
  trx_id = req.trx_id;
  status = status_pending;
  created_at = 0;
  updated_at = 0;
  request_data = req;
  response_data = none;
  notify_chan = some notify_chan;
}

-- The function that the timeout hands to `Update`.
abbrev pub set_timeout : Transaction → Transaction
set_timeout tx = record tx { status = status_timeout }

module _ {W : Type 0} (h : TransactionHandler W) where
  respond : Option EdcResponse → ResponseWriter → ResponseWriter
  respond (some response) out = write_json_response 200 (edc_body response) out
  respond none out = write_error_response 500 "no response data available" out

  -- What a tick does with the transaction that it loaded; `rest` is the next round.
  polled : Option Transaction → W → ResponseWriter → Outcome W → Outcome W
  polled none w out rest = answered w (write_error_response 500 "transaction not found" out)
  polled (some tx) w out rest =
      if str_eq tx.status status_pending then rest else answered w (respond tx.response_data out)

  -- The loop over the turns.
  unfoldable pub poll : List (Turn W) → W → ResponseWriter → String → Outcome W
  unfolding polled respond
  poll [] w out trx_id = waiting w
  poll (ticked acts ∷ turns) w out trx_id =
      let rest = poll turns (acts w) out trx_id in
      polled (h.store.load (acts w) trx_id) (acts w) out rest
  poll (ended acts ∷ turns) w out trx_id =
      answered (h.store.update (acts w) trx_id (some set_timeout)).0
        (write_error_response 408 "transaction timeout" out)

  unfoldable pub held : W → Option (HoldHandler W) → Bool
  held w none = false
  held w (some hold) = is_hold_enabled hold w

  -- The error of the publisher, or the loop.
  await : Schedule W → PaymentRequest → W × Done → ResponseWriter → Outcome W
  await schedule req (w, err e) out =
      answered w (write_error_response 503 ("ably connection error: " <> e) out)
  await schedule req (w, ok done) out = poll schedule.turns w out req.trx_id

  pub forward : Schedule W → PaymentRequest → String → W → ResponseWriter → Outcome W
  forward schedule req serial_number w out =
      if held w h.hold
      then poll schedule.turns w out req.trx_id
      else await schedule req
          (h.publisher.publish_payment_request (schedule.before_publish w) serial_number req.token
            req.trx_id)
          out

  -- The error of the store, or the forwarding.
  pub accepted : Schedule W → PaymentRequest → String → W × Done → ResponseWriter → Outcome W
  accepted schedule req serial_number (w, err e) out =
      answered w (write_error_response 500 ("failed to store transaction: " <> e) out)
  accepted schedule req serial_number (w, ok done) out =
      forward schedule req serial_number (schedule.before_hold w) out

  pub submit : Schedule W → W → ResponseWriter → PaymentRequest → Outcome W
  submit schedule w out req =
      if str_eq req.trx_id ""
      then answered w (write_error_response 400 "transaction_id is required" out)
      else elim (h.mapper.get_serial_number w req.mid req.tid) [
        | err e ↦ answered w (write_error_response 404 "unknown mid/tid combination" out)
        | ok serial_number ↦
            accepted schedule req serial_number
              (h.store.store (schedule.before_store w) req.trx_id
                (some (new_transaction schedule.notify_chan req)))
              out
      ]

  -- `HandleTransaction`. The last argument is the result of decoding the request's body.
  unfoldable pub handle_transaction :
      Schedule W → W → ResponseWriter → Result String PaymentRequest → Outcome W
  unfolding submit accepted forward await held poll
  handle_transaction schedule w out (err e) =
      answered w (write_error_response 400 "invalid JSON request body" out)
  handle_transaction schedule w out (ok req) =
      submit schedule w out (record req { trx_id = trim_space req.trx_id })

  -- `HandleTransactionStatus`; `trx_id` is the variable of the path.
  unfoldable pub handle_transaction_status : W → ResponseWriter → String → ResponseWriter
  handle_transaction_status w out trx_id =
      if str_eq trx_id ""
      then write_error_response 400 "transaction_id is required" out
      else elim (h.store.load w trx_id) [
        | none ↦ write_error_response 404 "transaction not found" out
        | some tx ↦
            write_json_response 200
              (status_body (record {
                status = tx.status;
                response =
                    if str_eq tx.status status_success || str_eq tx.status status_failed
                    then tx.response_data
                    else none;
              }))
              out
      ]
