-- ===== src/Ably/Publishing.antt =====
-- `PublishPaymentRequest` of internal/ably/publisher.go.
pub mod Laws
use poselink_api_middleware.Common.{
  ℕ, zero, suc, ◌+◌, ◌*◌, ◌^◌, ◌<>◌, String, Option, none, some, List, [], ◌∷◌, Result, ok, err,
  Done,
}
use poselink_api_middleware.Common.Lists.{get_elem?}

-- The Ably REST client, the JSON encoder and the clock of the host, which are not in the repository:
-- `publish` sends data under an event name to a channel, `marshal` encodes a map of texts, `sleep` lets a
-- number of milliseconds pass.
pub record RestClient (W : Type 0) : Type 0 where
  pub publish : W → String → String → String → W × Option String
  pub marshal : List (String × String) → Result String String
  pub sleep : ℕ → W → W

abbrev pub max_retries : ℕ
max_retries = 3

-- In milliseconds.
abbrev pub backoff_durations : List ℕ
backoff_durations = 100 ∷ 200 ∷ 400 ∷ []

-- `time.Sleep(backoffDurations[attempt-1])`; an index out of range would panic and is not reached.
abbrev nap : {W : Type 0} → RestClient W → ℕ → W → W
nap client zero w = w
nap client (suc n) w = elim (get_elem? backoff_durations n) [ none ↦ w | some d ↦ client.sleep d w ]

module _ {W : Type 0} (client : RestClient W) where
  -- The tests after a try: a success returns, an error is kept and the loop goes on.
  tried : W × Option String → (W → String → W × Done) → W × Done
  tried (w, none) again = (w, ok tt)
  tried (w, some e) again = again w e

  -- The loop: the rounds left, the number of the attempt, and `lastErr`.
  attempts : ℕ → ℕ → W → String → String → String → W × Done
  attempts zero attempt w channel payload last_err =
      (w, err ("failed to publish payment request after 3 retries: " <> last_err))
  attempts (suc left) attempt w channel payload last_err =
      tried (client.publish (nap client attempt w) channel "payment_request" payload)
        (λ w' e. attempts left (suc attempt) w' channel payload e)

  unfoldable pub publish_payment_request : W → String → String → String → W × Done
  unfolding attempts tried
  publish_payment_request w serial_number token trx_id =
      elim (client.marshal (("token", token) ∷ ("trx_id", trx_id) ∷ [])) [
        | err e ↦ (w, err ("failed to marshal payload: " <> e))
        | ok payload ↦ attempts (suc max_retries) 0 w ("edc:" <> serial_number) payload ""
      ]
