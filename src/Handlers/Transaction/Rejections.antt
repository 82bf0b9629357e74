-- ===== src/Handlers/Transaction/Rejections.antt =====
-- Which answers of `HandleTransaction` stand for which ends, and what its status handler shows.
use poselink_api_middleware.Common.{
  ◌≡◌, ◌≢◌, ◌⊎◌, refl, ap, String, some, List, Result, ok, err, Done, str_eq, inl, inr, Bool-cases,
  Result-cases,
}
use poselink_api_middleware.Common.Texts.{eq-false_of_ne}
use poselink_api_middleware.Models.{PaymentRequest, EdcResponse}
use poselink_api_middleware.Http.{
  ResponseWriter, new_writer, status_body, write_json_response, write_error_response,
}
use poselink_api_middleware.Store
use poselink_api_middleware.Handlers.Transaction.{
  TransactionHandler, Turn, Schedule, Outcome, waiting, answered, poll, held, submit, accepted,
  forward, await, handle_transaction, handle_transaction_status,
}
use poselink_api_middleware.Handlers.Transaction.Polling.{
  Answer, completed, no_data, lost, timed_out, poll-Answer,
}
use poselink_api_middleware.Handlers.Edc.{Channels, status_of, handle_edc_response}
use poselink_api_middleware.Handlers.Edc.Laws.{IsUpdated, status_of-cases, load-handle_edc_response}

-- The codes that answer a request which was stored.
abbrev IsLate : ResponseWriter → Type 0
IsLate out =
    (out.status ≡ some 200)
    ⊎ ((out.status ≡ some 408) ⊎ ((out.status ≡ some 500) ⊎ (out.status ≡ some 503)))

-- The answers of a handler from the world `w`: refused with nothing done, or late.
abbrev Sorted : {W : Type 0} → W → Outcome W → Type 0
Sorted w (waiting w') = Unit {0}
Sorted w (answered w' out) =
    ((w' ≡ w) × ((out.status ≡ some 400) ⊎ (out.status ≡ some 404))) ⊎ IsLate out

Answer-IsLate :
    {W : Type 0} (h : TransactionHandler W) (trx_id : String) (w : W) (out : ResponseWriter)
    → Answer h trx_id new_writer w out
    → IsLate out
unfolding write_json_response write_error_response
Answer-IsLate h trx_id w out (completed tx r found done stored e) =
    inl (ap (λ (x : ResponseWriter). x.status) e)
Answer-IsLate h trx_id w out (no_data tx found done stored e) =
    inr (inr (inl (ap (λ (x : ResponseWriter). x.status) e)))
Answer-IsLate h trx_id w out (lost found e) =
    inr (inr (inl (ap (λ (x : ResponseWriter). x.status) e)))
Answer-IsLate h trx_id w out (timed_out before left e) =
    inr (inl (ap (λ (x : ResponseWriter). x.status) e))

module _ {W : Type 0} (h : TransactionHandler W) where
  poll-Sorted :
      (turns : List (Turn W)) (w w₀ : W) (trx_id : String)
      → Sorted w₀ (poll h turns w new_writer trx_id)
  poll-Sorted turns w w₀ trx_id = go (poll h turns w new_writer trx_id) refl
    where
      go : (o : Outcome W) → poll h turns w new_writer trx_id ≡ o → Sorted w₀ o
      go (waiting w') e = tt
      go (answered w' out) e =
          inr (Answer-IsLate h trx_id w' out (poll-Answer h trx_id turns w new_writer w' out e))

  await-Sorted :
      (schedule : Schedule W) (req : PaymentRequest) (w₀ : W) (r : W × Done)
      → Sorted w₀ (await h schedule req r new_writer)
  unfolding await write_error_response
  await-Sorted schedule req w₀ (w, err e) = inr (inr (inr (inr refl)))
  await-Sorted schedule req w₀ (w, ok done) = poll-Sorted schedule.turns w w₀ req.trx_id

  forward-Sorted :
      (schedule : Schedule W) (req : PaymentRequest) (serial : String) (w w₀ : W)
      → Sorted w₀ (forward h schedule req serial w new_writer)
  unfolding forward
  forward-Sorted schedule req serial w w₀ = elim (Bool-cases (held h w h.hold)) [
    | inl e ↦ rw e (poll-Sorted schedule.turns w w₀ req.trx_id)
    | inr e ↦ rw e (await-Sorted schedule req w₀ _)
  ]

  accepted-Sorted :
      (schedule : Schedule W) (req : PaymentRequest) (serial : String) (w₀ : W) (r : W × Done)
      → Sorted w₀ (accepted h schedule req serial r new_writer)
  unfolding accepted write_error_response
  accepted-Sorted schedule req serial w₀ (w, err e) = inr (inr (inr (inl refl)))
  accepted-Sorted schedule req serial w₀ (w, ok done) =
      forward-Sorted schedule req serial (schedule.before_hold w) w₀

  submit-Sorted :
      (schedule : Schedule W) (w : W) (req : PaymentRequest)
      → Sorted w (submit h schedule w new_writer req)
  unfolding submit write_error_response
  submit-Sorted schedule w req = elim (Bool-cases (str_eq req.trx_id "")) [
    | inl e ↦ rw e (inl (refl, inl refl))
    | inr e ↦ elim (Result-cases (h.mapper.get_serial_number w req.mid req.tid)) [
      | inl (serial, e') ↦ rw (e, e') (accepted-Sorted schedule req serial w _)
      | inr (m, e') ↦ rw (e, e') (inl (refl, inr refl))
    ]
  ]

  handle_transaction-Sorted :
      (schedule : Schedule W) (w : W) (body : Result String PaymentRequest)
      → Sorted w (handle_transaction h schedule w new_writer body)
  unfolding handle_transaction write_error_response
  handle_transaction-Sorted schedule w (err e) = inl (refl, inl refl)
  handle_transaction-Sorted schedule w (ok req) = submit-Sorted schedule w _

  -- A request that is answered with 400 or 404 has changed nothing: it was neither stored nor published. The
  -- only other answers are 200, 408, 500 and 503.
  pub handle_transaction-refused :
      (schedule : Schedule W) (w w' : W) (body : Result String PaymentRequest)
      (out : ResponseWriter)
      → handle_transaction h schedule w new_writer body ≡ answered w' out
      → ((w' ≡ w) × ((out.status ≡ some 400) ⊎ (out.status ≡ some 404)))
        ⊎ ((out.status ≡ some 200)
            ⊎ ((out.status ≡ some 408) ⊎ ((out.status ≡ some 500) ⊎ (out.status ≡ some 503))))
  handle_transaction-refused schedule w w' body out e =
      rw e at (handle_transaction-Sorted schedule w body)

  -- Over a lawful store, after a device's response with a transaction's id is stored, the status of its
  -- transaction is the response's, SUCCESS or FAILED, and the answer carries the response itself.
  pub handle_transaction_status-responded :
      {P : Store.Promise W}
      → Store.IsLawful h.store P
      → (others : W → W) (w : W) (channels : Channels) (r : EdcResponse) (out : ResponseWriter)
      → IsUpdated (handle_edc_response (record { store = h.store }) others w channels r).2
      → r.trx_id ≢ ""
      → handle_transaction_status h
          (handle_edc_response (record { store = h.store }) others w channels r).0
          out
          r.trx_id
        ≡ write_json_response 200
            (status_body (record { status = status_of r; response = some r }))
            out
  unfolding handle_transaction_status
  handle_transaction_status-responded L others w channels r out done named =
      let (tx, found, status, stored) =
        load-handle_edc_response (record { store = h.store }) L others w channels r done in
      elim (status_of-cases r) [
        | inl e ↦ rw (eq-false_of_ne r.trx_id "" named, found, status, e, stored) refl
        | inr e ↦ rw (eq-false_of_ne r.trx_id "" named, found, status, e, stored) refl
      ]
