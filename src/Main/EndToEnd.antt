-- ===== src/Main/EndToEnd.antt =====
-- A payment through the program that `main` sets up: from the point of sale to the device and back.
use poselink_api_middleware.Common.{ℕ, ◌≡◌, refl, ap, sym, subst, ◌∙◌, List, ◌∷◌, ◌++◌, ok}
use mathlib.Core.Path.{fun_ext}
use poselink_api_middleware.Common.Texts.{trim_space}
use poselink_api_middleware.Models.{PaymentRequest, EdcResponse}
use poselink_api_middleware.Redis
use poselink_api_middleware.Redis.{IsFair}
use poselink_api_middleware.Store
use poselink_api_middleware.Store.Connecting.{RedisOptions, redis_options}
use poselink_api_middleware.Store.RedisStore.{CodecIsLawful}
use poselink_api_middleware.Store.RedisStore.Contract.{redis_promise, redis_store-IsLawful}
use poselink_api_middleware.Crypto.Bytes.{AreBytes}
use poselink_api_middleware.Crypto.Ecb
use poselink_api_middleware.Crypto.Ecb.{encrypt_aes128_ecb}
use poselink_api_middleware.Config.{Config, load_config}
use poselink_api_middleware.Http.{ResponseWriter, edc_body, write_json_response}
use poselink_api_middleware.Handlers.Edc.{Channels, handle_edc_response}
use poselink_api_middleware.Handlers.Edc.Laws.{IsUpdated}
use poselink_api_middleware.Handlers.Transaction.{
  Turn, ticked, new_transaction_handler, Schedule, answered, handle_transaction,
}
use poselink_api_middleware.Handlers.Transaction.Polling.{StillPending}
use poselink_api_middleware.Handlers.Transaction.Answers.{
  Sent, edc_handler, respond_with, handle_transaction-responded,
}
use poselink_api_middleware.Ably.Client.{Decoding, reader, new_ably_client-encryption_secret}
use poselink_api_middleware.Ably.Subscribing.{text_data, receive}
use poselink_api_middleware.Ably.Subscribing.Laws.{receive-encrypt}
use poselink_api_middleware.Main.{Host, App, redis_config, transaction_store, new_app, main}
use poselink_api_middleware.Main.Limits.{Started, main-Started, ok_injective}

-- The message of a device arrives, as the callback of the program handles it.
abbrev pub message :
    {W Fields : Type 0} → Decoding Fields → App W → (W → W) → Channels → List ℕ → W → W
message d app others channels encrypted w =
    (receive (reader app.ably_client d) app.edc_handler others w channels (text_data encrypted)).0

-- What the program relies on: Redis, the JSON of a transaction, and the cipher.
module _ {W Fields : Type 0} (host : Host W) (d : Decoding Fields)
    (L : (o : RedisOptions) → Redis.IsLawful (host.new_client o)) (C : CodecIsLawful host.json)
    (F : (o : RedisOptions) → IsFair (L o) host.after_watch)
    (G : (o : RedisOptions) → IsFair (L o) host.before_exec) (P : Ecb.IsLawful d.primitives) where
  -- The handlers of the requests and of the responses share a store.
  edc_handler-shared :
      (app : App W) → Started host app → app.edc_handler ≡ edc_handler app.transaction_handler
  unfolding new_app new_transaction_handler
  edc_handler-shared app s = rw s.wired refl

  store-IsLawful :
      (app : App W) (s : Started host app)
      → Store.IsLawful app.transaction_handler.store
          (redis_promise (transaction_store host s.client))
  unfolding new_app new_transaction_handler
  store-IsLawful app s =
      let options = redis_options (redis_config s.cfg) in
      let lawful =
        redis_store-IsLawful (transaction_store host (host.new_client options)) (L options) C
          (F options) (G options) in
      rw (s.wired, s.opened) lawful

  -- A message of the device is handled like the response that it encrypts.
  delivery :
      (app : App W) (cfg : Config) (others : W → W) (channels : Channels) (json encrypted : List ℕ)
      (r : EdcResponse)
      → Started host app
      → load_config host.env host.parse_mappings ≡ ok cfg
      → AreBytes json
      → encrypt_aes128_ecb d.primitives json (d.bytes cfg.encryption_secret) ≡ ok encrypted
      → d.unmarshal json ≡ ok r
      → (w : W)
      → (receive
          (reader app.ably_client d)
          app.edc_handler
          others
          w
          channels
          (text_data encrypted)).0
        ≡ respond_with app.transaction_handler others channels r w
  unfolding new_app
  delivery app cfg others channels json encrypted r s loaded bytes sealed reads w =
      let secret : app.ably_client.encryption_secret ≡ cfg.encryption_secret = rw s.wired (
        new_ably_client-encryption_secret host.ably _ _ s.ably_client s.made
        ∙ ap Config.encryption_secret (ok_injective (sym s.loaded ∙ loaded))) in
      receive-encrypt (reader app.ably_client d) P app.edc_handler others w channels json encrypted
        r bytes (rw secret sealed) reads
      ∙ ap (λ e. (handle_edc_response e others w channels r).0) (edc_handler-shared app s)

  -- A payment through the program that has started, from end to end. Redis, the JSON and the cipher do what
  -- they document. The program has started from a configuration and made its parts, and sends a request on to
  -- the device. The transaction is found pending until the device's message arrives, which is the encryption,
  -- under the configured secret, of the JSON of a response `r` for that request, and the callback stores it.
  -- Then the next poll answers the point of sale with status 200 and exactly `r`, whatever the later turns.
  pub main-responded :
      (w₀ w w₁ w₂ : W) (app : App W) (cfg : Config) (schedule : Schedule W) (req : PaymentRequest)
      (out : ResponseWriter) (ticks more : List (Turn W)) (others : W → W) (channels : Channels)
      (json encrypted : List ℕ) (r : EdcResponse)
      → (main host w₀).1 ≡ ok app
      → load_config host.env host.parse_mappings ≡ ok cfg
      → AreBytes json
      → encrypt_aes128_ecb d.primitives json (d.bytes cfg.encryption_secret) ≡ ok encrypted
      → d.unmarshal json ≡ ok r
      → Sent app.transaction_handler schedule w req w₁
      → schedule.turns ≡ ticks ++ (ticked (message d app others channels encrypted) ∷ more)
      → StillPending app.transaction_handler (trim_space req.trx_id) ticks w₁ w₂
      → r.trx_id ≡ trim_space req.trx_id
      → IsUpdated (handle_edc_response app.edc_handler others w₂ channels r).2
      → handle_transaction app.transaction_handler schedule w out (ok req)
        ≡ answered
            (message d app others channels encrypted w₂)
            (write_json_response 200 (edc_body r) out)
  main-responded w₀ w w₁ w₂ app cfg schedule req out ticks more others channels json encrypted r
        started loaded bytes sealed reads sent turns pending same done =
      let s = main-Started host w₀ app started in
      let delivered =
        fun_ext (delivery app cfg others channels json encrypted r s loaded bytes sealed reads) in
      handle_transaction-responded app.transaction_handler (store-IsLawful app s) schedule w w₁ w₂
        req out ticks more others channels r sent
        (turns ∙ ap (λ (f : W → W). ticks ++ (ticked f ∷ more)) delivered) pending same
        (subst (λ e. IsUpdated (handle_edc_response e others w₂ channels r).2)
          (edc_handler-shared app s) done)
      ∙ ap (λ (f : W → W). answered (f w₂) (write_json_response 200 (edc_body r) out))
          (sym delivered)
