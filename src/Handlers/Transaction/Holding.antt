-- ===== src/Handlers/Transaction/Holding.antt =====
-- Requests that are held back.
use poselink_api_middleware.Common.{
  ◌≡◌, refl, String, Option, none, some, true, ok, err, List, [], ◌∷◌, Done, str_eq, inl, inr,
  Bool-cases, Result-cases,
}
use poselink_api_middleware.Common.Texts.{trim_space}
use poselink_api_middleware.Models.{PaymentRequest, EdcResponse, Transaction}
use poselink_api_middleware.Ably.{AblyPublisher}
use poselink_api_middleware.Http.{ResponseWriter}
use poselink_api_middleware.Handlers.Transaction.{
  TransactionHandler, Turn, ticked, ended, Schedule, Outcome, new_transaction, handle_transaction,
  submit, accepted, forward, held, poll, polled, respond,
}

module _ {W : Type 0} (h : TransactionHandler W) (p : AblyPublisher W) where
  -- The same handler with another publisher.
  abbrev pub publishing_by : TransactionHandler W
  publishing_by = record h { publisher = p }

  respond-publisher :
      (r : Option EdcResponse) (out : ResponseWriter)
      → respond h r out ≡ respond publishing_by r out
  unfolding respond
  respond-publisher none out = refl
  respond-publisher (some r) out = refl

  polled-publisher :
      (tx : Option Transaction) (w : W) (out : ResponseWriter) (rest : Outcome W)
      → polled h tx w out rest ≡ polled publishing_by tx w out rest
  unfolding polled
  polled-publisher none w out rest = refl
  polled-publisher (some tx) w out rest = rw (respond-publisher tx.response_data out) refl

  poll-publisher :
      (turns : List (Turn W)) (w : W) (out : ResponseWriter) (trx_id : String)
      → poll h turns w out trx_id ≡ poll publishing_by turns w out trx_id
  unfolding poll
  poll-publisher [] w out trx_id = refl
  poll-publisher (ended acts ∷ turns) w out trx_id = refl
  poll-publisher (ticked acts ∷ turns) w out trx_id =
      rw (poll-publisher turns (acts w) out trx_id)
        (polled-publisher (h.store.load (acts w) trx_id) (acts w) out _)

  module _ (schedule : Schedule W) (out : ResponseWriter) where
    accepted-publisher :
        (req : PaymentRequest) (serial : String) (r : W × Done)
        → held h (schedule.before_hold r.0) h.hold ≡ true
        → accepted h schedule req serial r out ≡ accepted publishing_by schedule req serial r out
    unfolding accepted forward held
    accepted-publisher req serial (w, err e) on = refl
    accepted-publisher req serial (w, ok done) on =
        rw on (poll-publisher schedule.turns (schedule.before_hold w) out req.trx_id)

    -- Nothing is published while a hold is on: where the hold is on once the store was asked to take the
    -- transaction of a request, the outcome of the request, world and answer, is the same with any other
    -- publisher, whatever the store, the mapper and the rest of the world do.
    pub handle_transaction-held :
        (w : W) (req₀ : PaymentRequest)
        → let req : PaymentRequest = record req₀ { trx_id = trim_space req₀.trx_id } in
          held h
              (schedule.before_hold
                (h.store.store
                  (schedule.before_store w)
                  req.trx_id
                  (some (new_transaction schedule.notify_chan req))).0)
              h.hold
            ≡ true
          → handle_transaction h schedule w out (ok req₀)
            ≡ handle_transaction publishing_by schedule w out (ok req₀)
    unfolding handle_transaction submit
    handle_transaction-held w req₀ on =
        let req : PaymentRequest = record req₀ { trx_id = trim_space req₀.trx_id } in
        elim (Bool-cases (str_eq req.trx_id "")) [
          | inl e ↦ rw (e, submit) refl
          | inr e ↦ elim (Result-cases (h.mapper.get_serial_number w req.mid req.tid)) [
            | inr (m, e') ↦ rw (e, e', submit) refl
            | inl (serial, e') ↦ rw (e, e', submit) (accepted-publisher req serial _ on)
          ]
        ]
