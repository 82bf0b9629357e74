-- ===== src/Handlers/Transaction/Ending.antt =====
-- `HandleTransaction` ends, with one answer.
use poselink_api_middleware.Common.{
  ap, ℕ, ◌≡◌, refl, String, Option, none, some, List, [], ◌∷◌, Result, ok, err, Done, str_eq, inl,
  inr, Bool-cases, Result-cases,
}
use poselink_api_middleware.Models.{PaymentRequest, EdcResponse, Transaction, status_pending}
use poselink_api_middleware.Http.{ResponseWriter, Body, write_json_response, write_error_response}
use poselink_api_middleware.Http.Answers.{IsJson}
use poselink_api_middleware.Handlers.Transaction.{
  TransactionHandler, Turn, ticked, ended, Schedule, Outcome, waiting, answered, respond, polled,
  poll, held, submit, accepted, forward, await, handle_transaction,
}
use poselink_api_middleware.Handlers.Transaction.Polling.{HasEnd}

-- The handler has answered, with one status and one body.
Ends : {W : Type 0} → ResponseWriter → Outcome W → Type 0
Ends out₀ (waiting w) = ⊥
Ends out₀ (answered w out) = IsJson out₀ out

module _ {W : Type 0} (h : TransactionHandler W) where
  respond-Ends :
      (response : Option EdcResponse) (w : W) (out : ResponseWriter)
      → Ends out (answered w (respond h response out))
  unfolding Ends respond write_error_response
  respond-Ends none w out = (_, _, refl)
  respond-Ends (some r) w out = (_, _, refl)

  polled-Ends :
      (tx : Option Transaction) (w : W) (out : ResponseWriter) (rest : Outcome W)
      → Ends out rest
      → Ends out (polled h tx w out rest)
  unfolding Ends polled write_error_response
  polled-Ends none w out rest later = (_, _, refl)
  polled-Ends (some tx) w out rest later = elim (Bool-cases (str_eq tx.status status_pending)) [
    | inl e ↦ rw e later
    | inr e ↦ rw e (respond-Ends tx.response_data w out)
  ]

  poll-Ends :
      (turns : List (Turn W)) (w : W) (out : ResponseWriter) (trx_id : String)
      → HasEnd turns
      → Ends out (poll h turns w out trx_id)
  unfolding Ends poll write_error_response
  poll-Ends [] w out trx_id ends = absurd ends
  poll-Ends (ended acts ∷ turns) w out trx_id ends = (_, _, refl)
  poll-Ends (ticked acts ∷ turns) w out trx_id ends =
      polled-Ends (h.store.load (acts w) trx_id) (acts w) out _
        (poll-Ends turns (acts w) out trx_id ends)

  module _ (schedule : Schedule W) (ends : HasEnd schedule.turns) (out : ResponseWriter) where
    await-Ends : (req : PaymentRequest) (r : W × Done) → Ends out (await h schedule req r out)
    unfolding Ends await write_error_response
    await-Ends req (w, err e) = (_, _, refl)
    await-Ends req (w, ok done) = poll-Ends schedule.turns w out req.trx_id ends

    forward-Ends :
        (req : PaymentRequest) (serial : String) (w : W)
        → Ends out (forward h schedule req serial w out)
    unfolding forward
    forward-Ends req serial w = elim (Bool-cases (held h w h.hold)) [
      | inl e ↦ rw e (poll-Ends schedule.turns w out req.trx_id ends)
      | inr e ↦ rw e (await-Ends req _)
    ]

    accepted-Ends :
        (req : PaymentRequest) (serial : String) (r : W × Done)
        → Ends out (accepted h schedule req serial r out)
    unfolding Ends accepted write_error_response
    accepted-Ends req serial (w, err e) = (_, _, refl)
    accepted-Ends req serial (w, ok done) = forward-Ends req serial (schedule.before_hold w)

    submit-Ends : (w : W) (req : PaymentRequest) → Ends out (submit h schedule w out req)
    unfolding Ends submit write_error_response
    submit-Ends w req = elim (Bool-cases (str_eq req.trx_id "")) [
      | inl e ↦ rw e (_, _, refl)
      | inr e ↦ elim (Result-cases (h.mapper.get_serial_number w req.mid req.tid)) [
        | inl (serial, e') ↦ rw (e, e') (accepted-Ends req serial _)
        | inr (m, e') ↦ rw (e, e') (_, _, refl)
      ]
    ]

    handle_transaction-Ends :
        (w : W) (body : Result String PaymentRequest)
        → Ends out (handle_transaction h schedule w out body)
    unfolding Ends handle_transaction write_error_response
    handle_transaction-Ends w (err e) = (_, _, refl)
    handle_transaction-Ends w (ok req) = submit-Ends w _

  outcome-Ends :
      (o : Outcome W) (out₀ : ResponseWriter)
      → Ends out₀ o
      → (w' : W) × (code : ℕ) × (body : Body) × (o
          ≡ answered w' (write_json_response code body out₀))
  unfolding Ends
  outcome-Ends (waiting w) out₀ ends = absurd ends
  outcome-Ends (answered w out) out₀ (code, body, e) = (w, code, body, ap (answered w) e)

  -- Where the client goes or the timeout passes in the end, a request is answered, whatever it asks and
  -- whatever the store, the mapper, the publisher and the rest of the world do; and it is answered once, with
  -- one status and one JSON body.
  pub handle_transaction-ends :
      (schedule : Schedule W) (w : W) (out : ResponseWriter) (body : Result String PaymentRequest)
      → HasEnd schedule.turns
      → (w' : W) × (code : ℕ) × (answer : Body) × (handle_transaction h schedule w out body
          ≡ answered w' (write_json_response code answer out))
  handle_transaction-ends schedule w out body ends =
      outcome-Ends _ out (handle_transaction-Ends schedule ends out w body)
