-- ===== src/Handlers/Lifecycle/Writes.antt =====
-- The writes of the handlers to the Redis store are steps of the life of its transactions.
use poselink_api_middleware.Common.{
  ℕ, ◌≡◌, inl, inr, String, none, some, ok, eq_iff, eq_refl, str_eq, Bool-cases,
}
use poselink_api_middleware.Common.Texts.{ne_of_eq-false}
use poselink_api_middleware.Models.{PaymentRequest, EdcResponse, Transaction}
use poselink_api_middleware.Redis.{IsLawful, IsFair}
use poselink_api_middleware.Store.Stamp.{stamp}
use poselink_api_middleware.Store.RedisStore.{
  CodecIsLawful, RedisTransactionStore, store, load, update,
}
use poselink_api_middleware.Store.RedisStore.Conflicts.{Conflicts}
use poselink_api_middleware.Store.RedisStore.Contract.{redis_store}
use poselink_api_middleware.Store.RedisStore.Saving.{without_chan, load-store, load-store_ne}
use poselink_api_middleware.Store.RedisStore.Updating.{before_write, update-Committed}
use poselink_api_middleware.Handlers.Transaction.{new_transaction, set_timeout}
use poselink_api_middleware.Handlers.Edc.{Channels, handle_edc_response, set_response}
use poselink_api_middleware.Handlers.Edc.Laws.{IsUpdated, handle_edc_response-updated}
use poselink_api_middleware.Handlers.Lifecycle.{put, Step, submitted, responded, timed_out}

module _ {W : Type 0} (s : RedisTransactionStore W) where
  -- The writes that succeed: the `Store` of a request, the whole handling of a response, and the `Update` of a
  -- timeout.
  pub data Write (w : W) : W → Type 0 where
    request :
        (made : ℕ) (req : PaymentRequest)
        → (store s w req.trx_id (some (new_transaction made req))).1 ≡ ok tt
        → Write w (store s w req.trx_id (some (new_transaction made req))).0
    response :
        (acts : W → W) (channels : Channels) (r : EdcResponse)
        → IsUpdated (handle_edc_response (record { store = redis_store s }) acts w channels r).2
        → Write w (handle_edc_response (record { store = redis_store s }) acts w channels r).0
    timeout :
        (trx_id : String)
        → (update s w trx_id (some set_timeout)).1 ≡ ok tt
        → Write w (update s w trx_id (some set_timeout)).0

  -- The world in which the store is called for the write: a response is loaded first, and then others act.
  abbrev pub begin : {w w' : W} → Write w w' → W
  begin {w = w} (request made req done) = w
  begin {w = w} (response acts channels r done) = acts w
  begin {w = w} (timeout trx_id done) = w

  -- A moment of a call of the store: its beginning in `w`, or the moment before the EXEC of an attempt, after other
  -- clients have acted and the attempts before it have met conflicts.
  pub data Moment (w : W) : W → Type 0 where
    at_once : Moment w w
    within :
        (trx_id : String) (f : Transaction → Transaction) (i : ℕ) (w' : W)
        → Conflicts s trx_id f w i w'
        → Moment w (before_write s i w')

  module _ (L : IsLawful s.client) (C : CodecIsLawful s.json) (F : IsFair L s.after_watch)
      (G : IsFair L s.before_exec) where
    store-put :
        (w : W) (trx_id : String) (tx : Transaction)
        → (store s w trx_id (some tx)).1 ≡ ok tt
        → (j : String)
        → load s (store s w trx_id (some tx)).0 j
          ≡ put (load s w) trx_id (some (without_chan (stamp (s.now w) tx))) j
    store-put w trx_id tx h j = elim (Bool-cases (str_eq j trx_id)) [
      | inl e ↦ rw ((eq_iff j trx_id).0 e) (rw (eq_refl trx_id) (load-store s L C w trx_id tx h))
      | inr e ↦ rw e (load-store_ne s L C w trx_id tx j h (ne_of_eq-false j trx_id e))
    ]

    -- On a lawful and fair Redis, every write of a handler that succeeds, be it the `Store` of a request, the
    -- `Update` of a response or that of a timeout, is one step of the life of the transactions. The step is
    -- from what Redis held at a moment of the write: at its beginning, or just before the EXEC of the attempt
    -- that succeeds.
    pub Write-Step :
        {w w' : W} (write : Write w w')
        → (mid : W) × Moment (begin write) mid × Step (load s mid) (load s w')
    Write-Step {w} (request made req done) = (
      w,
      at_once,
      submitted (s.now w) made none req (store-put w req.trx_id (new_transaction made req) done),
    )
    Write-Step {w} (timeout trx_id done) =
        let (i, w₁, tx, c, found, held) = update-Committed s L C F G w trx_id set_timeout done in
        let mid = before_write s i w₁ in
        (mid, within trx_id set_timeout i w₁ c, timed_out (s.now mid) none trx_id tx found held)
    Write-Step {w} (response acts channels r done) =
        let (ok_update, same) =
          handle_edc_response-updated (record { store = redis_store s }) acts w channels r done in
        let (i, w₁, tx, c, found, held) =
          update-Committed s L C F G (acts w) r.trx_id (set_response r) ok_update in
        let mid = before_write s i w₁ in
        (
          mid,
          within r.trx_id (set_response r) i w₁ c,
          responded (s.now mid) none r tx found (λ j. rw same (held j)),
        )
