-- ===== src/Store/RedisStore/Saving.antt =====
-- What `Store` writes, and what `Load` reads after it.
use poselink_api_middleware.Common.{
  ◌≡◌, ◌≢◌, ap, sym, ◌∙◌, String, none, some, ok, eq_refl, arith, Result-cases, inl, inr,
}
use poselink_api_middleware.Models.{Transaction}
use poselink_api_middleware.Redis.{IsLawful}
use poselink_api_middleware.Store.Stamp.{stamp}
use poselink_api_middleware.Store.RedisStore.{
  CodecIsLawful, RedisTransactionStore, store, load, parse,
}
use poselink_api_middleware.Store.RedisStore.Keys.{transaction_key, transaction_key_ne}

abbrev pub without_chan : Transaction → Transaction
without_chan tx = record tx { notify_chan = none }

module _ {W : Type 0} (s : RedisTransactionStore W) (L : IsLawful s.client)
    (C : CodecIsLawful s.json) where
  -- Reads where the connection works: of a text that decodes, and of an encoded transaction.
  pub load-unmarshal :
      (w : W) (trx_id text : String) (tx : Transaction)
      → L.down w ≡ none
      → L.content w (transaction_key trx_id) ≡ some text
      → s.json.unmarshal text ≡ ok tx
      → load s w trx_id ≡ some tx
  unfolding load
  load-unmarshal w trx_id text tx up held decoded =
      ground (arith, L.get-reply w (transaction_key trx_id))

  pub load-marshal :
      (w : W) (trx_id text : String) (tx : Transaction)
      → L.down w ≡ none
      → L.content w (transaction_key trx_id) ≡ some text
      → s.json.marshal tx ≡ ok text
      → load s w trx_id ≡ some (without_chan tx)
  load-marshal w trx_id text tx up held encoded =
      load-unmarshal w trx_id text _ up held (C.unmarshal-marshal tx text encoded)

  -- Where the connection works, two worlds that agree on the key agree on the transaction.
  pub load_cong :
      (w w' : W) (trx_id : String)
      → L.down w ≡ L.down w'
      → L.content w (transaction_key trx_id) ≡ L.content w' (transaction_key trx_id)
      → load s w trx_id ≡ load s w' trx_id
  unfolding load
  load_cong w w' trx_id same_link same = ground (
    arith,
    same_link,
    same,
    L.get-reply w (transaction_key trx_id),
    L.get-reply w' (transaction_key trx_id),
  )

  -- A `Store` that succeeds has encoded the stamped transaction and set its key.
  Saved : W → String → Transaction → Type 0
  Saved w trx_id tx =
      (text : String) × (s.json.marshal (stamp (s.now w) tx) ≡ ok text)
      × ((s.client.set w (transaction_key trx_id) text s.ttl).1 ≡ none)
      × ((store s w trx_id (some tx)).0 ≡ (s.client.set w (transaction_key trx_id) text s.ttl).0)

  store_inv :
      (w : W) (trx_id : String) (tx : Transaction)
      → (store s w trx_id (some tx)).1 ≡ ok tt
      → Saved w trx_id tx
  unfolding store Saved
  store_inv w trx_id tx h = elim (Result-cases (s.json.marshal (stamp (s.now w) tx))) [
    | inl (text, e) ↦ (text, e, ground (arith, e), ground (arith, e))
    | inr (m, e) ↦ absurd (ground (arith, e))
  ]

  -- On a lawful Redis, a transaction whose `Store` succeeds is read back, with its timestamps set and without
  -- its channel.
  pub load-store :
      (w : W) (trx_id : String) (tx : Transaction)
      → (store s w trx_id (some tx)).1 ≡ ok tt
      → load s (store s w trx_id (some tx)).0 trx_id ≡ some (without_chan (stamp (s.now w) tx))
  unfolding Saved
  load-store w trx_id tx h =
      let (text, encoded, written, same) = store_inv w trx_id tx h in
      let key = transaction_key trx_id in
      rw same (
        load-marshal _ trx_id text (stamp (s.now w) tx) (L.set-down w key text s.ttl written).1
          (L.set-content w key text s.ttl key written ∙ rw (eq_refl key)) encoded)

  -- On a lawful Redis, a `Store` that succeeds leaves what `Load` gives for every other transaction as it was.
  pub load-store_ne :
      (w : W) (trx_id : String) (tx : Transaction) (j : String)
      → (store s w trx_id (some tx)).1 ≡ ok tt
      → j ≢ trx_id
      → load s (store s w trx_id (some tx)).0 j ≡ load s w j
  unfolding Saved
  load-store_ne w trx_id tx j h other =
      let (text, encoded, written, same) = store_inv w trx_id tx h in
      let key = transaction_key trx_id in
      let (before, after) = L.set-down w key text s.ttl written in
      rw same (
        load_cong _ w j (after ∙ sym before) (
          L.set-content w key text s.ttl (transaction_key j) written
          ∙ rw (transaction_key_ne j trx_id other)))

module _ {W : Type 0} (s : RedisTransactionStore W) (C : CodecIsLawful s.json) where
  -- A transaction that is loaded from Redis has no channel.
  pub load-notify_chan :
      (w : W) (trx_id : String) (tx : Transaction)
      → load s w trx_id ≡ some tx
      → tx.notify_chan ≡ none
  unfolding load parse
  load-notify_chan w trx_id tx found =
      elim (Result-cases (s.client.get w (transaction_key trx_id))) [
        | inr (e, failed) ↦ absurd (ground (arith, failed, found))
        | inl (text, got) ↦ elim (Result-cases (s.json.unmarshal text)) [
          | inr (e, failed) ↦ absurd (ground (arith, got, failed, found))
          | inl (tx', reads) ↦
              let same : tx' ≡ tx = ground (arith, got, reads, found) in
              ap (λ (t : Transaction). t.notify_chan) (sym same)
              ∙ C.unmarshal-notify_chan text tx' reads
        ]
      ]
