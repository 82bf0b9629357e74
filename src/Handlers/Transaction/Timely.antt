-- ===== src/Handlers/Transaction/Timely.antt =====
-- When `HandleTransaction` answers 408.
use mathlib.Core.List.{Memᴰ}
use poselink_api_middleware.Common.{
  ℕ, ◌≡◌, String, Option, none, some, true, List, [], ◌∷◌, Result, ok, err, Done, str_eq, inl, inr,
  Bool-cases, Result-cases, arith,
}
use poselink_api_middleware.Models.{PaymentRequest, EdcResponse, Transaction, status_pending}
use poselink_api_middleware.Http.{
  ResponseWriter, Body, new_writer, write_json_response, write_error_response,
}
use poselink_api_middleware.Handlers.Transaction.{
  TransactionHandler, Turn, ticked, ended, Schedule, Outcome, waiting, answered, respond, polled,
  poll, held, submit, accepted, forward, await, handle_transaction,
}
use poselink_api_middleware.Handlers.Transaction.Polling.{HasEnd}
use poselink_api_middleware.Handlers.Transaction.Ending.{handle_transaction-ends}
use poselink_api_middleware.Handlers.Transaction.Timing.{
  Round, is_done, IsDoneAt, handle_timed, turns_of, turns_of-IsDoneAt, turns_of-HasEnd,
}

-- A 408 is given by turns that have an end.
Timely : {W : Type 0} → List (Turn W) → Outcome W → Type 0
Timely turns (waiting w) = Unit {0}
Timely turns (answered w out) = out.status ≡ some 408 → HasEnd turns

-- The code that an answer begins with.
coded :
    {W : Type 0} (turns : List (Turn W)) (w : W) (code : ℕ) (body : Body)
    → (code ≡ 408 → HasEnd turns)
    → Timely turns (answered w (write_json_response code body new_writer))
unfolding Timely write_json_response
coded turns w code body h e = h (ground (arith, e))

module _ {W : Type 0} (h : TransactionHandler W) where
  respond-Timely :
      (turns : List (Turn W)) (response : Option EdcResponse) (w : W)
      → Timely turns (answered w (respond h response new_writer))
  unfolding respond write_error_response
  respond-Timely turns none w = coded turns w 500 _ (λ e. absurd (omega (arith, e)))
  respond-Timely turns (some r) w = coded turns w 200 _ (λ e. absurd (omega (arith, e)))

  polled-Timely :
      (turns : List (Turn W)) (tx : Option Transaction) (w : W) (rest : Outcome W)
      → Timely turns rest
      → Timely turns (polled h tx w new_writer rest)
  unfolding polled write_error_response
  polled-Timely turns none w rest later = coded turns w 500 _ (λ e. absurd (omega (arith, e)))
  polled-Timely turns (some tx) w rest later = elim (Bool-cases (str_eq tx.status status_pending)) [
    | inl e ↦ rw e later
    | inr e ↦ rw e (respond-Timely turns tx.response_data w)
  ]

  more :
      (acts : W → W) (turns : List (Turn W)) (o : Outcome W)
      → Timely turns o
      → Timely (ticked acts ∷ turns) o
  unfolding Timely
  more acts turns (waiting w) t = tt
  more acts turns (answered w out) t = t

  poll-Timely :
      (turns : List (Turn W)) (w : W) (trx_id : String)
      → Timely turns (poll h turns w new_writer trx_id)
  unfolding Timely poll
  poll-Timely [] w trx_id = tt
  poll-Timely (ended acts ∷ turns) w trx_id = λ e. tt
  poll-Timely (ticked acts ∷ turns) w trx_id =
      polled-Timely (ticked acts ∷ turns) (h.store.load (acts w) trx_id) (acts w) _
        (more acts turns _ (poll-Timely turns (acts w) trx_id))

  module _ (schedule : Schedule W) where
    await-Timely :
        (req : PaymentRequest) (r : W × Done)
        → Timely schedule.turns (await h schedule req r new_writer)
    unfolding await write_error_response
    await-Timely req (w, err e) = coded schedule.turns w 503 _ (λ e. absurd (omega (arith, e)))
    await-Timely req (w, ok done) = poll-Timely schedule.turns w req.trx_id

    accepted-Timely :
        (req : PaymentRequest) (serial : String) (r : W × Done)
        → Timely schedule.turns (accepted h schedule req serial r new_writer)
    unfolding accepted forward write_error_response
    accepted-Timely req serial (w, err e) =
        coded schedule.turns w 500 _ (λ e. absurd (omega (arith, e)))
    accepted-Timely req serial (w, ok done) =
        elim (Bool-cases (held h (schedule.before_hold w) h.hold)) [
          | inl e ↦ rw e (poll-Timely schedule.turns (schedule.before_hold w) req.trx_id)
          | inr e ↦ rw e (await-Timely req _)
        ]

    submit-Timely :
        (w : W) (req : PaymentRequest) → Timely schedule.turns (submit h schedule w new_writer req)
    unfolding submit write_error_response
    submit-Timely w req = elim (Bool-cases (str_eq req.trx_id "")) [
      | inl e ↦ rw e (coded schedule.turns w 400 _ (λ e. absurd (omega (arith, e))))
      | inr e ↦ elim (Result-cases (h.mapper.get_serial_number w req.mid req.tid)) [
        | inl (serial, e') ↦ rw (e, e') (accepted-Timely req serial _)
        | inr (m, e') ↦ rw (e, e') (coded schedule.turns w 404 _ (λ e. absurd (omega (arith, e))))
      ]
    ]

    handle_transaction-Timely :
        (w : W) (body : Result String PaymentRequest)
        → Timely schedule.turns (handle_transaction h schedule w new_writer body)
    unfolding handle_transaction write_error_response
    handle_transaction-Timely w (err e) =
        coded schedule.turns w 400 _ (λ e. absurd (omega (arith, e)))
    handle_transaction-Timely w (ok req) = submit-Timely w _

  given :
      (turns : List (Turn W)) (w : W) (out : ResponseWriter) (o : Outcome W)
      → Timely turns o
      → o ≡ answered w out
      → out.status ≡ some 408
      → HasEnd turns
  unfolding Timely
  given turns w out o t e = rw e at t

  -- A 408 is given at a moment at which the timeout has passed or the client has gone.
  pub handle_timed-Timely :
      (schedule : Schedule W) (moments : List (Round W)) (w w' : W)
      (body : Result String PaymentRequest) (out : ResponseWriter)
      → handle_timed h schedule moments w new_writer body ≡ answered w' out
      → out.status ≡ some 408
      → IsDoneAt h.timeout_duration moments
  unfolding handle_timed
  handle_timed-Timely schedule moments w w' body out e timed_out =
      let turns = turns_of h.timeout_duration 0 (λ w. w) moments in
      turns_of-IsDoneAt h.timeout_duration 0 (λ w. w) moments
        (given turns w' out _ (handle_transaction-Timely (record schedule { turns = turns }) w body)
          e timed_out)

  -- A request is answered, if not before, at a moment at which the timeout has passed or the client has gone
  -- and which takes that case.
  pub handle_timed-ends :
      (schedule : Schedule W) (moments : List (Round W)) (w : W) (out : ResponseWriter)
      (body : Result String PaymentRequest) (m : Round W)
      → Memᴰ m moments
      → is_done h.timeout_duration m ≡ true
      → m.prefers_done ≡ true
      → (w' : W) × (code : ℕ) × (answer : Body) × (handle_timed h schedule moments w out body
          ≡ answered w' (write_json_response code answer out))
  unfolding handle_timed
  handle_timed-ends schedule moments w out body m mem done taken =
      let turns = turns_of h.timeout_duration 0 (λ w. w) moments in
      handle_transaction-ends h (record schedule { turns = turns }) w out body
        (turns_of-HasEnd h.timeout_duration 0 (λ w. w) moments m mem done taken)
