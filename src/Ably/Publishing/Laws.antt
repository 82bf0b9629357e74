-- ===== src/Ably/Publishing/Laws.antt =====
-- Publishing with retries: the first success ends it, and four failures fail it.
use poselink_api_middleware.Common.{
  ℕ, suc, ◌+◌, ◌-◌, ◌≤◌, ◌<>◌, ◌≡◌, ◌∙◌, refl, ap, String, none, some, [], ◌∷◌, ok, err, arith,
}
use poselink_api_middleware.Ably.Publishing.{
  RestClient, nap, publish_payment_request, attempts, tried,
}

pair_eq : {A B : Type 0} (p : A × B) (b : B) → p.1 ≡ b → p ≡ (p.0, b)
pair_eq (a, b') b e = ap (λ c. (a, c)) e

module _ {W : Type 0} (client : RestClient W) (w : W) (serial_number token trx_id : String) where
  -- `Failed payload n w' e`: the first `n` tries failed, with a pause before each but the first. They left the
  -- world `w'`, and the last of them the error `e`.
  pub data Failed (payload : String) : ℕ → W → String → Type 0 where
    not_yet : Failed payload 0 w ""
    once_more :
        {n : ℕ} {w' : W} {e : String} (e' : String)
        → Failed payload n w' e
        → (client.publish (nap client n w') ("edc:" <> serial_number) "payment_request" payload).1
          ≡ some e'
        → Failed payload
            (suc n)
            (client.publish (nap client n w') ("edc:" <> serial_number) "payment_request" payload).0
            e'

  -- What is left of the loop after `n` failures.
  left :
      (payload : String) (n k : ℕ) (w' : W) (e : String)
      → Failed payload n w' e
      → n + k ≡ 4
      → attempts client 4 0 w ("edc:" <> serial_number) payload ""
        ≡ attempts client k n w' ("edc:" <> serial_number) payload e
  unfolding attempts tried
  left payload _ k _ _ not_yet four =
      let same : 4 ≡ k = omega arith in
      ap (λ m. attempts client m 0 w ("edc:" <> serial_number) payload "") same
  left payload _ k _ _ (once_more {n} {w'} {e} e' f failed) four =
      left payload n (suc k) w' e f (omega arith)
      ∙ ap
          (λ r.
            tried client r
              (λ w' e. attempts client k (suc n) w' ("edc:" <> serial_number) payload e))
          (pair_eq _ _ failed)

  started :
      (payload : String)
      → client.marshal (("token", token) ∷ ("trx_id", trx_id) ∷ []) ≡ ok payload
      → publish_payment_request client w serial_number token trx_id
        ≡ attempts client 4 0 w ("edc:" <> serial_number) payload ""
  unfolding publish_payment_request
  started payload encoded = ground (arith, encoded)

  -- Where the payload encodes, a first success at one of the four tries ends the loop with success, in the
  -- world that the try left.
  pub publish_payment_request-succeeds :
      (payload : String) (n : ℕ) (w' : W) (e : String)
      → client.marshal (("token", token) ∷ ("trx_id", trx_id) ∷ []) ≡ ok payload
      → Failed payload n w' e
      → n ≤ 3
      → (client.publish (nap client n w') ("edc:" <> serial_number) "payment_request" payload).1
        ≡ none
      → publish_payment_request client w serial_number token trx_id ≡ (
        (client.publish (nap client n w') ("edc:" <> serial_number) "payment_request" payload).0,
        ok tt,
      )
  unfolding attempts tried
  publish_payment_request-succeeds payload n w' e encoded failed bound success =
      let rest = left payload n (suc (3 - n)) w' e failed (omega arith) in
      started payload encoded
      ∙ rest
      ∙ ap
          (λ r.
            tried client r
              (λ w' e. attempts client (3 - n) (suc n) w' ("edc:" <> serial_number) payload e))
          (pair_eq _ _ success)

  -- Where the payload encodes, four failures fail the request with the last error.
  pub publish_payment_request-fails :
      (payload : String) (w' : W) (e : String)
      → client.marshal (("token", token) ∷ ("trx_id", trx_id) ∷ []) ≡ ok payload
      → Failed payload 4 w' e
      → publish_payment_request client w serial_number token trx_id
        ≡ (w', err ("failed to publish payment request after 3 retries: " <> e))
  unfolding attempts
  publish_payment_request-fails payload w' e encoded failed =
      let rest = left payload 4 0 w' e failed refl in started payload encoded ∙ rest
