-- ===== src/Handlers/Transaction/Polling.antt =====
-- The polling loop of `HandleTransaction`: how it answers, and when.
use poselink_api_middleware.Common.{
  ◌≡◌, ◌≢◌, refl, ap, String, Option, none, some, false, List, [], ◌∷◌, ◌++◌, str_eq, arith, inl,
  inr, Option-cases, Bool-cases,
}
use poselink_api_middleware.Common.Texts.{ne_of_eq-false}
use poselink_api_middleware.Models.{EdcResponse, Transaction, status_pending}
use poselink_api_middleware.Http.{
  ResponseWriter, edc_body, write_json_response, write_error_response,
}
use poselink_api_middleware.Handlers.Transaction.{
  TransactionHandler, Turn, ticked, ended, Outcome, waiting, answered, set_timeout, poll, polled,
  respond,
}

-- Some turn finds the context done.
abbrev pub HasEnd : {W : Type 0} → List (Turn W) → Type 0
HasEnd [] = ⊥
HasEnd (ticked acts ∷ turns) = HasEnd turns
HasEnd (ended acts ∷ turns) = Unit {0}

module _ {W : Type 0} (h : TransactionHandler W) (trx_id : String) where
  -- The turns are ticks, each of them finds the transaction pending, and they lead from the one world to the
  -- other.
  abbrev pub StillPending : List (Turn W) → W → W → Type 0
  StillPending [] w w' = w ≡ w'
  StillPending (ticked acts ∷ turns) w w' =
      (tx : Transaction) × (h.store.load (acts w) trx_id ≡ some tx)
      × (tx.status ≡ status_pending)
      × StillPending turns (acts w) w'
  StillPending (ended acts ∷ turns) w w' = ⊥

  -- What an answer of the loop rests on: a loaded transaction that is no longer pending, one that is gone, or
  -- the timeout.
  pub data Answer (out₀ : ResponseWriter) (w : W) (out : ResponseWriter) : Type 0 where
    completed :
        (tx : Transaction) (r : EdcResponse)
        → h.store.load w trx_id ≡ some tx
        → tx.status ≢ status_pending
        → tx.response_data ≡ some r
        → out ≡ write_json_response 200 (edc_body r) out₀
        → Answer out₀ w out
    no_data :
        (tx : Transaction)
        → h.store.load w trx_id ≡ some tx
        → tx.status ≢ status_pending
        → tx.response_data ≡ none
        → out ≡ write_error_response 500 "no response data available" out₀
        → Answer out₀ w out
    lost :
        h.store.load w trx_id ≡ none
        → out ≡ write_error_response 500 "transaction not found" out₀
        → Answer out₀ w out
    timed_out :
        (before : W)
        → w ≡ (h.store.update before trx_id (some set_timeout)).0
        → out ≡ write_error_response 408 "transaction timeout" out₀
        → Answer out₀ w out

  responded :
      (tx : Transaction) (w : W) (out₀ : ResponseWriter)
      → h.store.load w trx_id ≡ some tx
      → str_eq tx.status status_pending ≡ false
      → Answer out₀ w (respond h tx.response_data out₀)
  unfolding respond
  responded tx w out₀ found done = elim (Option-cases tx.response_data) [
    | inl e ↦
        no_data tx found (ne_of_eq-false _ _ done) e
          (ap (λ (d : Option EdcResponse). respond h d out₀) e)
    | inr (r, e) ↦
        completed tx r found (ne_of_eq-false _ _ done) e
          (ap (λ (d : Option EdcResponse). respond h d out₀) e)
  ]

  -- An answer of an outcome, wherever it comes from.
  abbrev Sound : ResponseWriter → Outcome W → Type 0
  Sound out₀ (waiting w) = Unit {0}
  Sound out₀ (answered w out) = Answer out₀ w out

  polled-Sound :
      (tx : Option Transaction) (w : W) (out₀ : ResponseWriter) (rest : Outcome W)
      → h.store.load w trx_id ≡ tx
      → Sound out₀ rest
      → Sound out₀ (polled h tx w out₀ rest)
  unfolding polled
  polled-Sound none w out₀ rest found later = lost found refl
  polled-Sound (some tx) w out₀ rest found later =
      elim (Bool-cases (str_eq tx.status status_pending)) [
        | inl e ↦ rw e later
        | inr e ↦ rw e (responded tx w out₀ found e)
      ]

  poll-Sound :
      (turns : List (Turn W)) (w : W) (out₀ : ResponseWriter)
      → Sound out₀ (poll h turns w out₀ trx_id)
  unfolding poll
  poll-Sound [] w out₀ = tt
  poll-Sound (ended acts ∷ turns) w out₀ = timed_out (acts w) refl refl
  poll-Sound (ticked acts ∷ turns) w out₀ =
      polled-Sound (h.store.load (acts w) trx_id) (acts w) out₀ _ refl
        (poll-Sound turns (acts w) out₀)

  -- Every answer of the loop is one of four: 200 with the response data of a transaction that the last poll
  -- found no longer pending, 500 for such a transaction without data, 500 where the transaction is gone, and
  -- 408 after the update that sets the status TIMEOUT.
  pub poll-Answer :
      (turns : List (Turn W)) (w : W) (out₀ : ResponseWriter) (w' : W) (out : ResponseWriter)
      → poll h turns w out₀ trx_id ≡ answered w' out
      → Answer out₀ w' out
  poll-Answer turns w out₀ w' out e = rw e at (poll-Sound turns w out₀)

  polled-answers :
      (tx : Option Transaction) (w : W) (out₀ : ResponseWriter) (rest : Outcome W)
      → ((w' : W) × (out : ResponseWriter) × (rest ≡ answered w' out))
      → (w' : W) × (out : ResponseWriter) × (polled h tx w out₀ rest ≡ answered w' out)
  unfolding polled
  polled-answers none w out₀ rest later = (_, _, refl)
  polled-answers (some tx) w out₀ rest later = elim (Bool-cases (str_eq tx.status status_pending)) [
    | inl e ↦ rw e later
    | inr e ↦ rw e (_, _, refl)
  ]

  -- Where some turn finds the context done, the loop answers.
  pub poll-answers :
      (turns : List (Turn W)) (w : W) (out₀ : ResponseWriter)
      → HasEnd turns
      → (w' : W) × (out : ResponseWriter) × (poll h turns w out₀ trx_id ≡ answered w' out)
  unfolding poll
  poll-answers [] w out₀ ends = absurd ends
  poll-answers (ended acts ∷ turns) w out₀ ends = (_, _, refl)
  poll-answers (ticked acts ∷ turns) w out₀ ends =
      polled-answers (h.store.load (acts w) trx_id) (acts w) out₀ _
        (poll-answers turns (acts w) out₀ ends)

  -- Ticks that find the transaction pending answer nothing.
  pub poll-append :
      (turns more : List (Turn W)) (w w' : W) (out : ResponseWriter)
      → StillPending turns w w'
      → poll h (turns ++ more) w out trx_id ≡ poll h more w' out trx_id
  unfolding poll
  poll-append [] more w w' out e = ap (λ (x : W). poll h more x out trx_id) e
  poll-append (ticked acts ∷ turns) more w w' out (tx, found, pending, rest) =
      rw (found, polled, pending) (poll-append turns more (acts w) w' out rest)
  poll-append (ended acts ∷ turns) more w w' out h = absurd h

  -- A tick that finds the transaction completed answers with its data.
  pub poll-completed :
      (acts : W → W) (more : List (Turn W)) (w : W) (out : ResponseWriter) (tx : Transaction)
      (r : EdcResponse)
      → h.store.load (acts w) trx_id ≡ some tx
      → str_eq tx.status status_pending ≡ false
      → tx.response_data ≡ some r
      → poll h (ticked acts ∷ more) w out trx_id
        ≡ answered (acts w) (write_json_response 200 (edc_body r) out)
  unfolding poll
  poll-completed acts more w out tx r found done held = ground arith
