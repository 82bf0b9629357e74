-- ===== src/Store/RedisStore/Updating.antt =====
-- What `Update` does to the stored transaction while other clients act between its commands.
use poselink_api_middleware.Common.{
  ℕ, zero, suc, ◌+◌, ◌≤◌, ◌≡◌, ◌≢◌, sym, subst, ◌∙◌, String, none, some, Result, ok, err, Done,
  eq_refl, arith, if◌then◌else◌, eq_iff, inl, inr, Result-cases, Bool-cases, str_eq, refl,
}
use poselink_api_middleware.Common.Texts.{ne_of_eq-false}
use poselink_api_middleware.Models.{Transaction}
use poselink_api_middleware.Redis.{IsLawful, IsFair, nil_reply, tx_failed, failed}
use poselink_api_middleware.Store.RedisStore.{
  CodecIsLawful, RedisTransactionStore, WatchError, redis, message, load, update, retry,
  attempt_update, transact, write_back, executed, settle, max_retries,
}
use poselink_api_middleware.Store.RedisStore.Conflicts.{Conflicts, not_yet, once_more}
use poselink_api_middleware.Store.RedisStore.Keys.{transaction_key, transaction_key_ne}
use poselink_api_middleware.Store.RedisStore.Saving.{
  without_chan, load-marshal, load-unmarshal, load_cong,
}

module _ {W : Type 0} (s : RedisTransactionStore W) where
  -- The world before the EXEC of the attempt of that number, which began in `w`.
  abbrev pub before_write : ℕ → W → W
  before_write i w = s.before_exec i (s.after_watch i w)

  -- From `start` on, some attempts met conflicts, and the next one applied the function to the transaction that
  -- stood there just before its EXEC, in no other way: no other client's write to the transaction is lost.
  abbrev pub Committed : W → W → String → (Transaction → Transaction) → Type 0
  Committed start end trx_id f =
      (i : ℕ) × (w : W) × (tx : Transaction) × Conflicts s trx_id f start i w
      × (load s (before_write i w) trx_id ≡ some tx)
      × ((j : String)
          → load s end j ≡ (
              if str_eq j trx_id
              then some (without_chan (record (f tx) { updated_at = s.now (before_write i w) }))
              else load s (before_write i w) j))

  -- What an EXEC does to the world before it, the transaction and the others apart.
  abbrev Written : W → W → String → (Transaction → Transaction) → Type 0
  Written w w' trx_id f =
      (tx : Transaction) × (load s w trx_id ≡ some tx)
      × (load s w' trx_id ≡ some (without_chan (record (f tx) { updated_at = s.now w })))
      × ((j : String) → j ≢ trx_id → load s w' j ≡ load s w j)

  Written-Committed :
      (start w end : W) (i : ℕ) (trx_id : String) (f : Transaction → Transaction)
      → Conflicts s trx_id f start i w
      → Written (before_write i w) end trx_id f
      → Committed start end trx_id f
  Written-Committed start w end i trx_id f c (tx, found, held, rest) = (
    i,
    w,
    tx,
    c,
    found,
    λ j. elim (Bool-cases (str_eq j trx_id)) [
      | inl e ↦ rw ((eq_iff j trx_id).0 e) (rw (eq_refl trx_id) held)
      | inr e ↦ rw e (rest j (ne_of_eq-false j trx_id e))
    ],
  )

module _ {W : Type 0} (s : RedisTransactionStore W) (L : IsLawful s.client)
    (C : CodecIsLawful s.json) (F : IsFair L s.after_watch) (G : IsFair L s.before_exec) where
  write_back-Written :
      (i : ℕ) (w : W) (trx_id text : String) (token : ℕ) (f : Transaction → Transaction)
      (tx : Transaction)
      → L.content w (transaction_key trx_id) ≡ some text
      → s.json.unmarshal text ≡ ok tx
      → token ≤ L.version w (transaction_key trx_id)
      → (write_back s i w trx_id token f tx).1 ≡ ok tt
      → Written s (s.before_exec i w) (write_back s i w trx_id token f tx).0 trx_id f
  unfolding write_back executed
  write_back-Written i w trx_id text token f tx held decoded old h =
      elim (Result-cases
        (s.json.marshal (record (f tx) { updated_at = s.now (s.before_exec i w) }))) [
          | inr (m, e) ↦ absurd (ground (arith, e))
          | inl (text', e) ↦
              let key = transaction_key trx_id in
              let w' = s.before_exec i w in
              let done : (s.client.exec_set w' token key text' s.ttl).1 ≡ none =
                ground (arith, e) in
              let same = G.content_same i w key (
                omega (
                  arith,
                  G.version_grows i w key,
                  L.exec_set-version w' token key text' s.ttl done,
                )) in
              let (before, after) = L.exec_set-down w' token key text' s.ttl done in
              let final : (write_back s i w trx_id token f tx).0
                  ≡ (s.client.exec_set w' token key text' s.ttl).0 =
                ground (arith, e) in
              (
                tx,
                load-unmarshal s L C w' trx_id text tx before (sym same ∙ held) decoded,
                rw final (
                    load-marshal s L C _ trx_id text' _ after
                      (L.exec_set-content w' token key text' s.ttl key done ∙ rw (eq_refl key)) e),
                λ j other. rw final (
                    load_cong s L C _ w' j (after ∙ sym before) (
                      L.exec_set-content w' token key text' s.ttl (transaction_key j) done
                      ∙ rw (transaction_key_ne j trx_id other))),
              )
        ]

  -- Which text a read found, if it succeeded.
  get-content :
      (w : W) (k text : String)
      → s.client.get w k ≡ ok text
      → (L.down w ≡ none) × (L.content w k ≡ some text)
  get-content w k text h = (ground (arith, L.get-reply w k), ground (arith, L.get-reply w k))

  transact-Written :
      (i : ℕ) (w : W) (trx_id : String) (token : ℕ) (f : Transaction → Transaction)
      → token ≤ L.version w (transaction_key trx_id)
      → (transact s i w trx_id token f).1 ≡ ok tt
      → Written s (s.before_exec i w) (transact s i w trx_id token f).0 trx_id f
  unfolding transact
  transact-Written i w trx_id token f old h =
      elim (Result-cases (s.client.get w (transaction_key trx_id))) [
        | inr (nil_reply, e) ↦ absurd (ground (arith, e))
        | inr (tx_failed, e) ↦ absurd (ground (arith, e))
        | inr (failed m, e) ↦ absurd (ground (arith, e))
        | inl (text, e) ↦ elim (Result-cases (s.json.unmarshal text)) [
          | inr (m, e') ↦ absurd (ground (arith, e, e'))
          | inl (tx, e') ↦
              let final : transact s i w trx_id token f ≡ write_back s i w trx_id token f tx =
                ground (arith, e, e') in
              rw final (
                write_back-Written i w trx_id text token f tx
                  (get-content w (transaction_key trx_id) text e).1 e' old (rw final at h))
        ]
      ]

  attempt_update-Written :
      (i : ℕ) (w : W) (trx_id : String) (f : Transaction → Transaction)
      → (attempt_update s i w trx_id f).1 ≡ ok tt
      → Written s (before_write s i w) (attempt_update s i w trx_id f).0 trx_id f
  unfolding attempt_update
  attempt_update-Written i w trx_id f h =
      elim (Result-cases (s.client.watch w (transaction_key trx_id))) [
        | inr (m, e) ↦ absurd (ground (arith, e))
        | inl (token, e) ↦
            let key = transaction_key trx_id in
            let final : attempt_update s i w trx_id f
                ≡ transact s i (s.after_watch i w) trx_id token f =
              ground (arith, e) in
            rw final (
              transact-Written i (s.after_watch i w) trx_id token f
                (omega (arith, L.watch-version w key token e, F.version_grows i w key))
                (rw final at h))
      ]

  settle-Committed :
      (start : W) (trx_id : String) (f : Transaction → Transaction)
      (r : W × Result WatchError (Unit {0})) (again : W → W × Done)
      → (r.1 ≡ ok tt → Committed s start r.0 trx_id f)
      → (r.1 ≡ err (redis tx_failed)
          → (again r.0).1 ≡ ok tt
          → Committed s start (again r.0).0 trx_id f)
      → (settle s r again).1 ≡ ok tt
      → Committed s start (settle s r again).0 trx_id f
  unfolding settle
  settle-Committed start trx_id f (w, ok tt) again here later h = here refl
  settle-Committed start trx_id f (w, err (redis tx_failed)) again here later h = later refl h
  settle-Committed start trx_id f (w, err (redis nil_reply)) again here later h = absurd (cc)
  settle-Committed start trx_id f (w, err (redis (failed e))) again here later h = absurd (cc)
  settle-Committed start trx_id f (w, err (message e)) again here later h = absurd (cc)

  retry-Committed :
      (start : W) (left i : ℕ) (w : W) (trx_id : String) (f : Transaction → Transaction)
      → Conflicts s trx_id f start i w
      → (retry s left i w trx_id f).1 ≡ ok tt
      → Committed s start (retry s left i w trx_id f).0 trx_id f
  unfolding retry
  retry-Committed start zero i w trx_id f c h = absurd (cc)
  retry-Committed start (suc left) i w trx_id f c h =
      let next : suc i ≡ i + 1 = omega arith in
      settle-Committed start trx_id f (attempt_update s i w trx_id f) _
        (λ done.
          Written-Committed s start w _ i trx_id f c (attempt_update-Written i w trx_id f done))
        (λ conflict. retry-Committed start left (i + 1) (attempt_update s i w trx_id f).0 trx_id f (
          subst (λ n. Conflicts s trx_id f start n (attempt_update s i w trx_id f).0) next
            (once_more c conflict)))
        h

  -- No update is lost. On a lawful and fair Redis, where an `Update` with a function succeeds, some attempts
  -- met conflicts, and the next one applied the function to the transaction that stood in Redis just before
  -- its EXEC, after all that other clients had done until then; `updated_at` is the time of that EXEC, the
  -- result is what Redis holds, and every other transaction is as just before the EXEC.
  pub update-Committed :
      (w : W) (trx_id : String) (f : Transaction → Transaction)
      → (update s w trx_id (some f)).1 ≡ ok tt
      → Committed s w (update s w trx_id (some f)).0 trx_id f
  unfolding update
  update-Committed w trx_id f h = elim (Bool-cases (str_eq trx_id "")) [
    | inl e ↦ absurd (ground (arith, e))
    | inr e ↦
        let final : update s w trx_id (some f) ≡ retry s max_retries 0 w trx_id f = rw e in
        rw final (retry-Committed w max_retries 0 w trx_id f not_yet (rw final at h))
  ]
