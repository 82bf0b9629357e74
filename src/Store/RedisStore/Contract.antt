-- ===== src/Store/RedisStore/Contract.antt =====
-- The Redis store as a `TransactionStore`, with the laws that the handlers rely on.
use poselink_api_middleware.Common.{ℕ, ◌≡◌, refl}
use poselink_api_middleware.Redis.{IsLawful, IsFair}
use poselink_api_middleware.Store
use poselink_api_middleware.Store.{TransactionStore, Promise}
use poselink_api_middleware.Store.RedisStore.{
  CodecIsLawful, RedisTransactionStore, store, load, update,
}
use poselink_api_middleware.Store.RedisStore.Conflicts.{Conflicts}
use poselink_api_middleware.Store.RedisStore.Saving.{without_chan, load-store, load-store_ne}
use poselink_api_middleware.Store.RedisStore.Updating.{before_write, update-Committed}

abbrev pub redis_store : {W : Type 0} → RedisTransactionStore W → TransactionStore W
redis_store s = record { store = store s; load = load s; update = update s }

-- It drops the channel. An `Update` happens just before the EXEC of an attempt, after other clients have acted and
-- the attempts before it have met conflicts.
abbrev pub redis_promise : {W : Type 0} → RedisTransactionStore W → Promise W
redis_promise {W = W} s = record {
  kept = without_chan;
  clock = s.now;
  Within =
      λ w trx_id f w'. (i : ℕ) × (v : W) × Conflicts s trx_id f w i v × (w' ≡ before_write s i v);
}

-- On a lawful and fair Redis, the Redis store meets the contract of the interface, and keeps all of a
-- transaction but its channel: what is stored is loaded with its timestamps; an `Update` that succeeds applies
-- its function to the transaction that stood there just before the EXEC of one of its attempts, the ones
-- before having met conflicts, and sets `updated_at`; and both leave every other transaction as it was, at the
-- call or just before that EXEC.
pub redis_store-IsLawful :
    {W : Type 0} (s : RedisTransactionStore W) (L : IsLawful s.client) (C : CodecIsLawful s.json)
    → IsFair L s.after_watch
    → IsFair L s.before_exec
    → Store.IsLawful (redis_store s) (redis_promise s)
redis_store-IsLawful s L C F G = record {
  kept_lem = λ tx. refl;
  load-store = load-store s L C;
  load-store_ne = load-store_ne s L C;
  load-update = λ w trx_id f h.
      let (i, v, tx, c, found, held) = update-Committed s L C F G w trx_id f h in
      (before_write s i v, tx, (i, v, c, refl), found, held);
}
