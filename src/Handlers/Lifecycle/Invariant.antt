-- ===== src/Handlers/Lifecycle/Invariant.antt =====
-- What holds of every transaction that the handlers can leave in a store.
use poselink_api_middleware.Common.{
  ◌≡◌, ◌≢◌, ◌⊎◌, inl, inr, refl, sym, subst, ◌∙◌, String, Option, none, some, Bool-cases, str_eq,
  arith,
}
use poselink_api_middleware.Common.Texts.{eq-false_of_ne}
use poselink_api_middleware.Models.{EdcResponse, Transaction, status_pending, status_timeout}
use poselink_api_middleware.Http.{ResponseWriter, status_body, write_json_response}
use poselink_api_middleware.Store.Stamp.{stamp}
use poselink_api_middleware.Handlers.Edc.{status_of}
use poselink_api_middleware.Handlers.Edc.Laws.{status_of-cases}
use poselink_api_middleware.Handlers.Transaction.{TransactionHandler, handle_transaction_status}
use poselink_api_middleware.Handlers.Lifecycle.{
  Ledger, put, Step, submitted, responded, timed_out, expired, Reach, empty, later,
}

-- A pending transaction has no response, a decided one has the response that decided it, and one that timed
-- out has either.
pub data IsConsistent (tx : Transaction) : Type 0 where
  is_pending : tx.status ≡ status_pending → tx.response_data ≡ none → IsConsistent tx
  is_decided :
      (r : EdcResponse) → tx.response_data ≡ some r → tx.status ≡ status_of r → IsConsistent tx
  is_timed_out : tx.status ≡ status_timeout → IsConsistent tx

AllConsistent : Ledger → Type 0
AllConsistent s = (j : String) (tx : Transaction) → s j ≡ some tx → IsConsistent tx

put-AllConsistent :
    (s s' : Ledger) (trx_id : String) (new : Option Transaction)
    → ((tx : Transaction) → new ≡ some tx → IsConsistent tx)
    → ((j : String) → s' j ≡ put s trx_id new j)
    → AllConsistent s
    → AllConsistent s'
unfolding AllConsistent
put-AllConsistent s s' trx_id new fine same old j tx found = elim (Bool-cases (str_eq j trx_id)) [
  | inl e ↦ fine tx (sym (same j ∙ rw e refl) ∙ found)
  | inr e ↦ old j tx (sym (same j ∙ rw e refl) ∙ found)
]

of_some :
    {a : Transaction} → IsConsistent a → (tx : Transaction) → some a ≡ some tx → IsConsistent tx
of_some {a} c tx e = let same : a ≡ tx = cc in subst IsConsistent same c

Step-AllConsistent : {s s' : Ledger} → Step s s' → AllConsistent s → AllConsistent s'
unfolding stamp
Step-AllConsistent {s} {s'} (submitted now made chan req same) old =
    put-AllConsistent s s' req.trx_id _ (of_some (is_pending refl refl)) same old
Step-AllConsistent {s} {s'} (responded now chan r tx₀ found same) old =
    put-AllConsistent s s' r.trx_id _ (of_some (is_decided r refl refl)) same old
Step-AllConsistent {s} {s'} (timed_out now chan trx_id tx₀ found same) old =
    put-AllConsistent s s' trx_id _ (of_some (is_timed_out refl)) same old
Step-AllConsistent {s} {s'} (expired trx_id same) old =
    put-AllConsistent s s' trx_id _ (λ tx e. absurd (ground arith)) same old

reached : {s : Ledger} → Reach s → AllConsistent s
unfolding AllConsistent
reached (empty none_yet) j tx found = absurd (ground (arith, none_yet j, found))
reached (later r step) j tx found = Step-AllConsistent step (reached r) j tx found

-- Whatever requests, responses, timeouts and expiries a store has seen, in any order, every transaction in it
-- is pending without a response, or has the response that its status comes from, or has timed out.
pub Reach-IsConsistent :
    {s : Ledger} (j : String) (tx : Transaction) → Reach s → s j ≡ some tx → IsConsistent tx
unfolding AllConsistent
Reach-IsConsistent j tx r found = reached r j tx found

-- A transaction that is no longer pending and has no response has timed out: the polling loop answers "no
-- response data available" only after another request's timeout.
pub no_data-IsConsistent :
    (tx : Transaction)
    → IsConsistent tx
    → tx.status ≢ status_pending
    → tx.response_data ≡ none
    → tx.status ≡ status_timeout
no_data-IsConsistent tx (is_pending p e) done gone = absurd (done p)
no_data-IsConsistent tx (is_decided r e p) done gone = absurd (ground (arith, e, gone))
no_data-IsConsistent tx (is_timed_out p) done gone = p

-- What the status endpoint can say.
pub data IsReport (out₀ out : ResponseWriter) : Type 0 where
  undecided :
      (status : String)
      → (status ≡ status_pending) ⊎ (status ≡ status_timeout)
      → out
        ≡ write_json_response 200 (status_body (record { status = status; response = none })) out₀
      → IsReport out₀ out
  decided :
      (r : EdcResponse)
      → out
        ≡ write_json_response 200
            (status_body (record { status = status_of r; response = some r }))
            out₀
      → IsReport out₀ out

module _ {W : Type 0} (h : TransactionHandler W) where
  reported :
      (w : W) (out : ResponseWriter) (trx_id : String) (tx : Transaction)
      → trx_id ≢ ""
      → h.store.load w trx_id ≡ some tx
      → IsConsistent tx
      → IsReport out (handle_transaction_status h w out trx_id)
  unfolding handle_transaction_status
  reported w out trx_id tx named found (is_pending p e) =
      undecided status_pending (inl refl) (rw (eq-false_of_ne trx_id "" named, found, p) refl)
  reported w out trx_id tx named found (is_timed_out p) =
      undecided status_timeout (inr refl) (rw (eq-false_of_ne trx_id "" named, found, p) refl)
  reported w out trx_id tx named found (is_decided r e p) = elim (status_of-cases r) [
    | inl c ↦ decided r (rw (eq-false_of_ne trx_id "" named, found, e, p, c) refl)
    | inr c ↦ decided r (rw (eq-false_of_ne trx_id "" named, found, e, p, c) refl)
  ]

  -- Of a transaction in a store that any requests, responses, timeouts and expiries have filled, with an id
  -- that is not empty, the status endpoint answers 200 with PENDING or TIMEOUT and no response, or with a
  -- response and the status that comes from it.
  pub handle_transaction_status-IsReport :
      (w : W) (out : ResponseWriter) (trx_id : String) (tx : Transaction)
      → Reach (h.store.load w)
      → trx_id ≢ ""
      → h.store.load w trx_id ≡ some tx
      → IsReport out (handle_transaction_status h w out trx_id)
  handle_transaction_status-IsReport w out trx_id tx r named found =
      reported w out trx_id tx named found (Reach-IsConsistent trx_id tx r found)
