-- ===== src/Store/RedisStore.antt =====
-- internal/store/redis_transaction_store.go: the store of transactions in Redis.
pub mod Keys
pub mod Saving
pub mod Conflicts
pub mod Updating
pub mod Succeeding
pub mod Contract
use poselink_api_middleware.Common.{
  ℕ, zero, suc, ◌+◌, ◌*◌, ◌^◌, ◌<>◌, ◌≡◌, String, Option, none, some, Result, ok, err, Done, str_eq,
  if◌then◌else◌,
}
use poselink_api_middleware.Models.{Transaction}
use poselink_api_middleware.Redis.{Redis, RedisError, nil_reply, tx_failed, failed}
use poselink_api_middleware.Store.Stamp.{stamp}
use Keys.{transaction_key}

-- `json.Marshal` and `json.Unmarshal` at `models.Transaction`; an error is its text.
pub record TransactionCodec : Type 0 where
  pub marshal : Transaction → Result String String
  pub unmarshal : String → Result String Transaction

-- What is written is read back, but for the channel, whose tag is `json:"-"`: it is neither written nor read.
pub record CodecIsLawful (json : TransactionCodec) : Type 0 where
  pub unmarshal-marshal :
      (tx : Transaction) (text : String)
      → json.marshal tx ≡ ok text
      → json.unmarshal text ≡ ok (record tx { notify_chan = none })
  pub unmarshal-notify_chan :
      (text : String) (tx : Transaction) → json.unmarshal text ≡ ok tx → tx.notify_chan ≡ none

abbrev pub max_retries : ℕ
max_retries = 3

-- What the function under `Watch` returns: a text of the program, or an error of the client.
pub data WatchError : Type 0 where
  message : String → WatchError
  redis : RedisError → WatchError

-- The struct, with what its methods use beside it: the JSON codec, the clock, and what other clients of the
-- server do after the WATCH and before the EXEC of the attempt of that number.
pub record RedisTransactionStore (W : Type 0) : Type 0 where
  pub client : Redis W
  pub ttl : ℕ
  pub json : TransactionCodec
  pub now : W → ℕ
  pub after_watch : ℕ → W → W
  pub before_exec : ℕ → W → W

-- 24 hours in nanoseconds.
abbrev pub default_ttl : ℕ
default_ttl = 24 * 3600 * 10 ^ 9

abbrev pub new_redis_transaction_store :
    {W : Type 0}
    → Redis W
    → TransactionCodec
    → (W → ℕ)
    → (ℕ → W → W)
    → (ℕ → W → W)
    → RedisTransactionStore W
new_redis_transaction_store client json now after_watch before_exec = record {
  client = client;
  ttl = default_ttl;
  json = json;
  now = now;
  after_watch = after_watch;
  before_exec = before_exec;
}

module _ {W : Type 0} (s : RedisTransactionStore W) where
  stored : String → W × Option RedisError → W × Done
  stored trx_id (w, none) = (w, ok tt)
  stored trx_id (w, some e) =
      (w, err ("failed to store transaction " <> trx_id <> " in Redis: " <> s.client.error_text e))

  save : W → String → Transaction → W × Done
  save w trx_id tx = elim (s.json.marshal tx) [
    | err e ↦ (w, err ("failed to serialize transaction " <> trx_id <> ": " <> e))
    | ok text ↦ stored trx_id (s.client.set w (transaction_key trx_id) text s.ttl)
  ]

  -- `Store`; a nil transaction is `none`.
  unfoldable pub store : W → String → Option Transaction → W × Done
  unfolding save stored
  store w trx_id tx = if str_eq trx_id "" then (w, err "trxID cannot be empty") else elim tx [
    | none ↦ (w, err "transaction cannot be nil")
    | some tx ↦ save w trx_id (stamp (s.now w) tx)
  ]

  parse : Result String Transaction → Option Transaction
  parse (ok tx) = some tx
  parse (err e) = none

  -- `Load`
  unfoldable pub load : W → String → Option Transaction
  unfolding parse
  load w trx_id = elim (s.client.get w (transaction_key trx_id)) [
    | err e ↦ none
    | ok text ↦ parse (s.json.unmarshal text)
  ]

  executed : W × Option RedisError → W × Result WatchError (Unit {0})
  executed (w, none) = (w, ok tt)
  executed (w, some e) = (w, err (redis e))

  -- From the loaded transaction to the EXEC.
  write_back :
      ℕ
      → W
      → String
      → ℕ
      → (Transaction → Transaction)
      → Transaction
      → W × Result WatchError (Unit {0})
  write_back attempt w trx_id token update_fn tx =
      let w' = s.before_exec attempt w in
      elim (s.json.marshal (record (update_fn tx) { updated_at = s.now w' })) [
        | err e ↦
            (w', err (message ("failed to serialize updated transaction " <> trx_id <> ": " <> e)))
        | ok text ↦ executed (s.client.exec_set w' token (transaction_key trx_id) text s.ttl)
      ]

  -- The function under `Watch`.
  transact : ℕ → W → String → ℕ → (Transaction → Transaction) → W × Result WatchError (Unit {0})
  transact attempt w trx_id token update_fn = elim (s.client.get w (transaction_key trx_id)) [
    | err nil_reply ↦ (w, err (message ("transaction not found: " <> trx_id)))
    | err tx_failed ↦ (
      w,
      err (
          message
            ("failed to load transaction " <> trx_id <> ": " <> s.client.error_text tx_failed)),
    )
    | err (failed e) ↦ (
      w,
      err (
          message
            ("failed to load transaction " <> trx_id <> ": " <> s.client.error_text (failed e))),
    )
    | ok text ↦ elim (s.json.unmarshal text) [
      | err e ↦ (w, err (message ("failed to deserialize transaction " <> trx_id <> ": " <> e)))
      | ok tx ↦ write_back attempt w trx_id token update_fn tx
    ]
  ]

  -- One call of `client.Watch`.
  pub attempt_update :
      ℕ → W → String → (Transaction → Transaction) → W × Result WatchError (Unit {0})
  attempt_update attempt w trx_id update_fn = elim (s.client.watch w (transaction_key trx_id)) [
    | err e ↦ (w, err (redis e))
    | ok token ↦ transact attempt (s.after_watch attempt w) trx_id token update_fn
  ]

  -- The tests after the call: a conflict goes round again, any other error is returned.
  settle : W × Result WatchError (Unit {0}) → (W → W × Done) → W × Done
  settle (w, ok done) again = (w, ok tt)
  settle (w, err (redis tx_failed)) again = again w
  settle (w, err (redis nil_reply)) again = (w, err (s.client.error_text nil_reply))
  settle (w, err (redis (failed e))) again = (w, err (s.client.error_text (failed e)))
  settle (w, err (message text)) again = (w, err text)

  -- The loop of `Update`: the rounds left, and the number of the attempt.
  retry : ℕ → ℕ → W → String → (Transaction → Transaction) → W × Done
  retry zero attempt w trx_id update_fn = (w, err "failed to update transaction after 3 retries")
  retry (suc left) attempt w trx_id update_fn =
      settle (attempt_update attempt w trx_id update_fn)
        (λ w'. retry left (attempt + 1) w' trx_id update_fn)

  -- `Update`; a nil function is `none`.
  unfoldable pub update : W → String → Option (Transaction → Transaction) → W × Done
  unfolding retry settle attempt_update transact write_back executed
  update w trx_id update_fn =
      if str_eq trx_id "" then (w, err "trxID cannot be empty") else elim update_fn [
        | none ↦ (w, err "updateFn cannot be nil")
        | some f ↦ retry max_retries 0 w trx_id f
      ]
