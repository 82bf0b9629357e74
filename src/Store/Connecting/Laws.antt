-- ===== src/Store/Connecting/Laws.antt =====
-- Connecting with retries: the first answer ends it, and five failures close the client.
use poselink_api_middleware.Common.{
  ℕ, suc, ◌+◌, ◌-◌, ◌≤◌, ◌<>◌, ◌≡◌, ◌∙◌, refl, ap, String, none, some, ok, err, arith,
}
use poselink_api_middleware.Store.Connecting.{
  Connection, back_off, new_redis_client, attempts, pinged,
}

pair_eq : {A B : Type 0} (p : A × B) (b : B) → p.1 ≡ b → p ≡ (p.0, b)
pair_eq (a, b') b e = ap (λ c. (a, c)) e

module _ {W : Type 0} (client : Connection W) (w : W) where
  -- `Failed n w' e`: the first `n` PINGs failed, with a pause after each but the fifth. They left the world `w'`,
  -- and the last of them the error `e`.
  pub data Failed : ℕ → W → String → Type 0 where
    not_yet : Failed 0 w ""
    once_more :
        {n : ℕ} {w' : W} {e : String} (e' : String)
        → Failed n w' e
        → (client.ping w').1 ≡ some e'
        → Failed (suc n) (back_off client n (client.ping w').0) e'

  left :
      (n k : ℕ) (w' : W) (e : String)
      → Failed n w' e
      → n + k ≡ 5
      → attempts client 5 0 w "" ≡ attempts client k n w' e
  unfolding attempts pinged
  left _ k _ _ not_yet five =
      let same : 5 ≡ k = omega arith in ap (λ m. attempts client m 0 w "") same
  left _ k _ _ (once_more {n} {w'} {e} e' f failed) five =
      left n (suc k) w' e f (omega arith)
      ∙ ap (λ r. pinged client n r (λ w' e. attempts client k (suc n) w' e)) (pair_eq _ _ failed)

  -- A first answer to one of the five PINGs gives a client, without a further pause.
  pub new_redis_client-connects :
      (n : ℕ) (w' : W) (e : String)
      → Failed n w' e
      → n ≤ 4
      → (client.ping w').1 ≡ none
      → new_redis_client client w ≡ ((client.ping w').0, ok tt)
  unfolding new_redis_client attempts pinged
  new_redis_client-connects n w' e failed bound answered =
      left n (suc (4 - n)) w' e failed (omega arith)
      ∙ ap (λ r. pinged client n r (λ w' e. attempts client (4 - n) (suc n) w' e))
          (pair_eq _ _ answered)

  -- After five failures the client is closed and the last error returned.
  pub new_redis_client-fails :
      (w' : W) (e : String)
      → Failed 5 w' e
      → new_redis_client client w
        ≡ (client.close w', err ("failed to connect to Redis after 5 attempts: " <> e))
  unfolding new_redis_client attempts
  new_redis_client-fails w' e failed = left 5 0 w' e failed refl
