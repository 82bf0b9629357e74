-- ===== src/Store/RedisStore/Conflicts.antt =====
-- The attempts of an `Update` that meet a write of another client.
use poselink_api_middleware.Common.{
  ℕ, suc, ◌≡◌, ◌⊎◌, inl, inr, refl, String, some, err, arith, Result-cases,
}
use poselink_api_middleware.Models.{Transaction}
use poselink_api_middleware.Redis.{IsLawful, nil_reply, tx_failed, failed}
use poselink_api_middleware.Store.RedisStore.{
  RedisTransactionStore, redis, attempt_update, transact, write_back, executed,
}
use poselink_api_middleware.Store.RedisStore.Keys.{transaction_key}

module _ {W : Type 0} (s : RedisTransactionStore W) (trx_id : String)
    (f : Transaction → Transaction) where
  -- The first `n` attempts ended in a conflict, and left the world `w'`.
  pub data Conflicts (w : W) : ℕ → W → Type 0 where
    not_yet : Conflicts w 0 w
    once_more :
        {n : ℕ} {w' : W}
        → Conflicts w n w'
        → (attempt_update s n w' trx_id f).1 ≡ err (redis tx_failed)
        → Conflicts w (suc n) (attempt_update s n w' trx_id f).0

module _ {W : Type 0} (s : RedisTransactionStore W) (L : IsLawful s.client) (trx_id : String)
    (f : Transaction → Transaction) where
  write_back-conflict :
      (i : ℕ) (w : W) (token : ℕ) (tx : Transaction)
      → (write_back s i w trx_id token f tx).1 ≡ err (redis tx_failed)
      → (write_back s i w trx_id token f tx).0 ≡ s.before_exec i w
  unfolding write_back executed
  write_back-conflict i w token tx h =
      elim (Result-cases
        (s.json.marshal (record (f tx) { updated_at = s.now (s.before_exec i w) }))) [
          | inr (m, e) ↦ absurd (ground (arith, e))
          | inl (text, e) ↦
              let key = transaction_key trx_id in
              let w' = s.before_exec i w in
              let lost : (s.client.exec_set w' token key text s.ttl).1 ≡ some tx_failed =
                ground (arith, e) in
              rw (e, write_back, lost) (L.exec_set-tx_failed w' token key text s.ttl lost)
        ]

  transact-conflict :
      (i : ℕ) (w : W) (token : ℕ)
      → (transact s i w trx_id token f).1 ≡ err (redis tx_failed)
      → (transact s i w trx_id token f).0 ≡ s.before_exec i w
  unfolding transact
  transact-conflict i w token h = elim (Result-cases (s.client.get w (transaction_key trx_id))) [
    | inr (nil_reply, e) ↦ absurd (ground (arith, e))
    | inr (tx_failed, e) ↦ absurd (ground (arith, e))
    | inr (failed m, e) ↦ absurd (ground (arith, e))
    | inl (text, e) ↦ elim (Result-cases (s.json.unmarshal text)) [
      | inr (m, e') ↦ absurd (ground (arith, e, e'))
      | inl (tx, e') ↦
          let final : transact s i w trx_id token f ≡ write_back s i w trx_id token f tx =
            ground (arith, e, e') in
          rw final (write_back-conflict i w token tx (rw final at h))
    ]
  ]

  -- An attempt that meets a conflict has written nothing.
  pub attempt_update-conflict :
      (i : ℕ) (w : W)
      → (attempt_update s i w trx_id f).1 ≡ err (redis tx_failed)
      → ((attempt_update s i w trx_id f).0 ≡ w)
        ⊎ ((attempt_update s i w trx_id f).0 ≡ s.before_exec i (s.after_watch i w))
  unfolding attempt_update
  attempt_update-conflict i w h = elim (Result-cases (s.client.watch w (transaction_key trx_id))) [
    | inr (m, e) ↦ inl (rw (e, attempt_update) refl)
    | inl (token, e) ↦
        let final : attempt_update s i w trx_id f
            ≡ transact s i (s.after_watch i w) trx_id token f =
          ground (arith, e) in
        inr (rw final (transact-conflict i (s.after_watch i w) token (rw final at h)))
  ]
