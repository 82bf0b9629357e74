-- ===== src/Handlers/Transaction/Answers.antt =====
-- `HandleTransaction` as a whole: a payment, its device's response, and the answer to the point of sale.
use poselink_api_middleware.Common.{
  ◌≡◌, ◌≢◌, refl, ap, sym, ◌∙◌, String, some, false, List, ◌∷◌, ◌++◌, ok, err, Done,
}
use poselink_api_middleware.Common.Texts.{trim_space, eq-false_of_ne}
use poselink_api_middleware.Models.{PaymentRequest, EdcResponse, Transaction, status_timeout}
use poselink_api_middleware.Http.{
  ResponseWriter, edc_body, write_json_response, write_error_response,
}
use poselink_api_middleware.Store
use poselink_api_middleware.Handlers.Transaction.{
  TransactionHandler, Turn, ticked, ended, Schedule, answered, new_transaction, set_timeout, poll,
  held, submit, accepted, forward, await, handle_transaction,
}
use poselink_api_middleware.Handlers.Transaction.Polling.{StillPending, poll-append, poll-completed}
use poselink_api_middleware.Handlers.Edc.{
  EdcResponseHandler, Channels, status_of, handle_edc_response,
}
use poselink_api_middleware.Handlers.Edc.Laws.{IsUpdated, status_of_iff, load-handle_edc_response}

module _ {W : Type 0} (h : TransactionHandler W) where
  -- The request is valid, is stored, is not held back and is published, which leaves the world `w'`.
  abbrev pub Sent : Schedule W → W → PaymentRequest → W → Type 0
  Sent schedule w req₀ w' =
      let req : PaymentRequest = record req₀ { trx_id = trim_space req₀.trx_id } in
      let stored : W × Done =
        h.store.store (schedule.before_store w) req.trx_id
          (some (new_transaction schedule.notify_chan req)) in
      (serial_number : String) × (req.trx_id ≢ "")
      × (h.mapper.get_serial_number w req.mid req.tid ≡ ok serial_number)
      × (stored.1 ≡ ok tt)
      × (held h (schedule.before_hold stored.0) h.hold ≡ false)
      × (h.publisher.publish_payment_request
            (schedule.before_publish (schedule.before_hold stored.0)) serial_number req.token
            req.trx_id
          ≡ (w', ok tt))

  pub accepted-ok :
      (schedule : Schedule W) (req : PaymentRequest) (serial : String) (r : W × Done)
      (out : ResponseWriter)
      → r.1 ≡ ok tt
      → accepted h schedule req serial r out
        ≡ forward h schedule req serial (schedule.before_hold r.0) out
  unfolding accepted
  accepted-ok schedule req serial (w, ok tt) out e = refl
  accepted-ok schedule req serial (w, err m) out e = absurd (cc)

  pub submit-accepted :
      (schedule : Schedule W) (w : W) (req : PaymentRequest) (out : ResponseWriter)
      (serial : String)
      → req.trx_id ≢ ""
      → h.mapper.get_serial_number w req.mid req.tid ≡ ok serial
      → submit h schedule w out req
        ≡ accepted h schedule req serial
            (h.store.store
              (schedule.before_store w)
              req.trx_id
              (some (new_transaction schedule.notify_chan req)))
            out
  unfolding submit
  submit-accepted schedule w req out serial named mapped =
      rw (eq-false_of_ne req.trx_id "" named, mapped)

  forward-await :
      (schedule : Schedule W) (req : PaymentRequest) (serial : String) (w : W)
      (out : ResponseWriter)
      → held h w h.hold ≡ false
      → forward h schedule req serial w out
        ≡ await h schedule req
            (h.publisher.publish_payment_request
              (schedule.before_publish w)
              serial
              req.token
              req.trx_id)
            out
  unfolding forward
  forward-await schedule req serial w out free = rw free

  -- A request that is sent reaches the polling loop.
  pub handle_transaction-Sent :
      (schedule : Schedule W) (w w' : W) (req : PaymentRequest) (out : ResponseWriter)
      → Sent schedule w req w'
      → handle_transaction h schedule w out (ok req)
        ≡ poll h schedule.turns w' out (trim_space req.trx_id)
  unfolding handle_transaction
  handle_transaction-Sent schedule w w' req₀ out (serial, named, mapped, stored, free, published) =
      let req : PaymentRequest = record req₀ { trx_id = trim_space req₀.trx_id } in
      let result : W × Done =
        h.store.store (schedule.before_store w) req.trx_id
          (some (new_transaction schedule.notify_chan req)) in
      submit-accepted schedule w req out serial named mapped
      ∙ accepted-ok schedule req serial result out stored
      ∙ forward-await schedule req serial (schedule.before_hold result.0) out free
      ∙ ap (λ r. await h schedule req r out) published

  -- The handler of responses over the same store.
  abbrev pub edc_handler : EdcResponseHandler W
  edc_handler = record { store = h.store }

  -- The device's response `r` arrives, as `HandleEDCResponse` handles it.
  abbrev pub respond_with : (W → W) → Channels → EdcResponse → W → W
  respond_with others channels r w = (handle_edc_response edc_handler others w channels r).0

module _ {W : Type 0} (h : TransactionHandler W) {P : Store.Promise W}
    (L : Store.IsLawful h.store P) where
  -- A device's response reaches the point of sale. Over a lawful store, a request that is sent, whose
  -- transaction is found pending at every tick until the response `r` for it arrives and is stored, is
  -- answered at the next tick with status 200 and exactly `r`, whatever the response's status and the later
  -- turns.
  pub handle_transaction-responded :
      (schedule : Schedule W) (w w₁ w₂ : W) (req : PaymentRequest) (out : ResponseWriter)
      (ticks more : List (Turn W)) (others : W → W) (channels : Channels) (r : EdcResponse)
      → Sent h schedule w req w₁
      → schedule.turns ≡ ticks ++ (ticked (respond_with h others channels r) ∷ more)
      → StillPending h (trim_space req.trx_id) ticks w₁ w₂
      → r.trx_id ≡ trim_space req.trx_id
      → IsUpdated (handle_edc_response (edc_handler h) others w₂ channels r).2
      → handle_transaction h schedule w out (ok req)
        ≡ answered (respond_with h others channels r w₂) (write_json_response 200 (edc_body r) out)
  handle_transaction-responded schedule w w₁ w₂ req out ticks more others channels r sent turns
        pending same done =
      let (tx, found, status, held) =
        load-handle_edc_response (edc_handler h) L others w₂ channels r done in
      handle_transaction-Sent h schedule w w₁ req out sent
      ∙ ap (λ ts. poll h ts w₁ out (trim_space req.trx_id)) turns
      ∙ poll-append h (trim_space req.trx_id) ticks _ w₁ w₂ out pending
      ∙ poll-completed h (trim_space req.trx_id) (respond_with h others channels r) more w₂ out tx r
          (ap (λ (k : String). h.store.load (respond_with h others channels r w₂) k) (sym same)
            ∙ found)
          (rw status (status_of_iff r).2) held

  -- Over a lawful store, where the context is done before a poll has found the transaction completed and the
  -- update of the store succeeds, the answer is 408 and the transaction's status is then TIMEOUT.
  pub poll-timeout :
      (trx_id : String) (ticks more : List (Turn W)) (acts : W → W) (w w' : W)
      (out : ResponseWriter)
      → StillPending h trx_id ticks w w'
      → (h.store.update (acts w') trx_id (some set_timeout)).1 ≡ ok tt
      → (tx : Transaction) × (poll h (ticks ++ (ended acts ∷ more)) w out trx_id
          ≡ answered
              (h.store.update (acts w') trx_id (some set_timeout)).0
              (write_error_response 408 "transaction timeout" out))
        × (h.store.load (h.store.update (acts w') trx_id (some set_timeout)).0 trx_id ≡ some tx)
        × (tx.status ≡ status_timeout)
  unfolding poll
  poll-timeout trx_id ticks more acts w w' out pending done =
      let (old, now, held) = Store.load-update_self L (acts w') trx_id set_timeout done in
      let new : Transaction = record (set_timeout old) { updated_at = now } in
      (P.kept new, poll-append h trx_id ticks _ w w' out pending, held, rw L.kept_lem)

  -- A response that is stored after the last poll, before the handler finds its context done, is lost to the
  -- point of sale. Over a lawful store on which the handler's update succeeds, the response stands in the
  -- store with its own status, the answer is 408 all the same, and afterwards the status is TIMEOUT.
  pub poll-timeout_overwrites :
      (ticks more : List (Turn W)) (w w' : W) (out : ResponseWriter) (others : W → W)
      (channels : Channels) (r : EdcResponse)
      → StillPending h r.trx_id ticks w w'
      → IsUpdated (handle_edc_response (edc_handler h) others w' channels r).2
      → (h.store.update (respond_with h others channels r w') r.trx_id (some set_timeout)).1 ≡ ok tt
      → (before after : Transaction) × (last : W) × (h.store.load
            (respond_with h others channels r w')
            r.trx_id
          ≡ some before)
        × (before.status ≡ status_of r)
        × (before.response_data ≡ some r)
        × (poll h (ticks ++ (ended (respond_with h others channels r) ∷ more)) w out r.trx_id
            ≡ answered last (write_error_response 408 "transaction timeout" out))
        × (h.store.load last r.trx_id ≡ some after)
        × (after.status ≡ status_timeout)
  poll-timeout_overwrites ticks more w w' out others channels r pending done timed =
      let (before, found, status, stored) =
        load-handle_edc_response (edc_handler h) L others w' channels r done in
      let (after, answer, held, status') =
        poll-timeout r.trx_id ticks more (respond_with h others channels r) w w' out pending
          timed in
      (before, after, _, found, status, stored, answer, held, status')
