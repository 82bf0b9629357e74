-- ===== src/Store/RedisStore/Succeeding.antt =====
-- When `Update` succeeds, and when it gives up.
use poselink_api_middleware.Common.{
  ℕ, suc, ◌+◌, ◌-◌, ◌≤◌, ◌≡◌, ◌≢◌, ◌∙◌, ap, refl, String, some, none, Result, ok, err, Done, arith,
  Result-cases, Option-cases, inl, inr,
}
use poselink_api_middleware.Common.Texts.{eq-false_of_ne}
use poselink_api_middleware.Models.{Transaction}
use poselink_api_middleware.Redis.{IsLawful, IsFair, IsResponsive, tx_failed}
use poselink_api_middleware.Store.RedisStore.{
  RedisTransactionStore, WatchError, redis, load, update, retry, attempt_update, transact,
  write_back, executed, settle, parse,
}
use poselink_api_middleware.Store.RedisStore.Conflicts.{Conflicts, not_yet, once_more}
use poselink_api_middleware.Store.RedisStore.Keys.{transaction_key}

module _ {W : Type 0} (s : RedisTransactionStore W) (trx_id : String)
    (f : Transaction → Transaction) where
  settle-conflict :
      (r : W × Result WatchError (Unit {0})) (again : W → W × Done)
      → r.1 ≡ err (redis tx_failed)
      → settle s r again ≡ again r.0
  unfolding settle
  settle-conflict (w, r) again e = rw e refl

  settle-done :
      (r : W × Result WatchError (Unit {0})) (again : W → W × Done)
      → r.1 ≡ ok tt
      → settle s r again ≡ (r.0, ok tt)
  unfolding settle
  settle-done (w, r) again e = rw e refl

  left :
      {w : W} (n k : ℕ) (w' : W)
      → Conflicts s trx_id f w n w'
      → n + k ≡ 3
      → retry s 3 0 w trx_id f ≡ retry s k n w' trx_id f
  unfolding retry
  left {w} _ k _ not_yet three =
      let same : 3 ≡ k = omega arith in ap (λ m. retry s m 0 w trx_id f) same
  left _ k _ (once_more {n} {w'} c conflict) three =
      let next : n + 1 ≡ suc n = omega arith in
      left n (suc k) w' c (omega arith)
      ∙ settle-conflict _ _ conflict
      ∙ ap (λ m. retry s k m (attempt_update s n w' trx_id f).0 trx_id f) next

  started : (w : W) → trx_id ≢ "" → update s w trx_id (some f) ≡ retry s 3 0 w trx_id f
  unfolding update
  started w named = rw (eq-false_of_ne trx_id "" named) refl

  -- Where the id is not empty, after three conflicts `Update` gives up: the error says so, and nothing has
  -- been done after the last one.
  pub update-Conflicts :
      (w w' : W)
      → trx_id ≢ ""
      → Conflicts s trx_id f w 3 w'
      → update s w trx_id (some f) ≡ (w', err "failed to update transaction after 3 retries")
  unfolding retry
  update-Conflicts w w' named c = started w named ∙ left 3 0 w' c refl

module _ {W : Type 0} (s : RedisTransactionStore W) (L : IsLawful s.client) (R : IsResponsive L)
    (F : IsFair L s.after_watch) (G : IsFair L s.before_exec) (trx_id : String)
    (f : Transaction → Transaction) where
  -- An attempt during which no other client writes to the transaction: the server stays reachable, the
  -- transaction is there, and what the function makes of it encodes.
  pub record Undisturbed (n : ℕ) (w : W) : Type 0 where
    pub tx : Transaction
    pub text : String
    pub up : L.down w ≡ none
    pub up_watched : L.down (s.after_watch n w) ≡ none
    pub up_exec : L.down (s.before_exec n (s.after_watch n w)) ≡ none
    pub untouched :
        L.version (s.before_exec n (s.after_watch n w)) (transaction_key trx_id)
        ≡ L.version w (transaction_key trx_id)
    pub held : load s w trx_id ≡ some tx
    pub encodes :
        s.json.marshal (record (f tx) { updated_at = s.now (s.before_exec n (s.after_watch n w)) })
        ≡ ok text

  found :
      (w : W) (tx : Transaction)
      → L.down w ≡ none
      → load s w trx_id ≡ some tx
      → (text : String) × (L.content w (transaction_key trx_id) ≡ some text)
        × (s.json.unmarshal text ≡ ok tx)
  unfolding load parse
  found w tx up held = elim (Option-cases (L.content w (transaction_key trx_id))) [
    | inl e ↦ absurd (ground (arith, e, L.get-reply w (transaction_key trx_id)))
    | inr (text, e) ↦ elim (Result-cases (s.json.unmarshal text)) [
      | inr (m, e') ↦ absurd (ground (arith, e, e', L.get-reply w (transaction_key trx_id)))
      | inl (tx', e') ↦ (text, e, ground (arith, e, e', L.get-reply w (transaction_key trx_id)))
    ]
  ]

  attempt_update-Undisturbed :
      (n : ℕ) (w : W) → Undisturbed n w → (attempt_update s n w trx_id f).1 ≡ ok tt
  unfolding attempt_update transact write_back executed
  attempt_update-Undisturbed n w u =
      let key = transaction_key trx_id in
      let wa = s.after_watch n w in
      let wb = s.before_exec n wa in
      let (token, watched) = R.watch-up w key u.up in
      let version = L.watch-version w key token watched in
      let low = F.version_grows n w key in
      let high = G.version_grows n wa key in
      let untouched = u.untouched in
      let encodes = u.encodes in
      let (text, there, reads) = found w u.tx u.up u.held in
      let same = F.content_same n w key (omega arith) in
      let got : s.client.get wa key ≡ ok text =
        ground (arith, L.get-reply wa key, u.up_watched, same, there) in
      let written = R.exec_set-up wb token key u.text s.ttl u.up_exec (omega arith) in
      ground (arith, watched, got, reads, encodes, written)

  -- On a lawful, fair and responsive Redis, an `Update` of a transaction whose id is not empty succeeds if one
  -- of its three attempts is undisturbed and those before it ended in conflicts.
  pub update-Undisturbed :
      (w : W) (n : ℕ) (w' : W)
      → trx_id ≢ ""
      → n ≤ 2
      → Conflicts s trx_id f w n w'
      → Undisturbed n w'
      → (update s w trx_id (some f)).1 ≡ ok tt
  unfolding retry
  update-Undisturbed w n w' named bound c u =
      let all =
        started s trx_id f w named
        ∙ left s trx_id f n (suc (2 - n)) w' c (omega arith)
        ∙ settle-done s trx_id f _ _ (attempt_update-Undisturbed n w' u) in
      ap (λ r. r.1) all
