-- ===== src/Ably/Subscribing/Laws.antt =====
-- An encrypted response of a device ends in the store.
use poselink_api_middleware.Common.{ℕ, ◌≡◌, ◌∙◌, refl, sym, subst, some, List, Result, ok, arith}
use poselink_api_middleware.Models.{EdcResponse, Transaction}
use poselink_api_middleware.Crypto.Bytes.{AreBytes}
use poselink_api_middleware.Crypto.Ecb
use poselink_api_middleware.Crypto.Ecb.{encrypt_aes128_ecb, decrypt_aes128_ecb}
use poselink_api_middleware.Crypto.Ecb.Laws.{decrypt-encrypt}
use poselink_api_middleware.Store
use poselink_api_middleware.Handlers.Edc.{
  EdcResponseHandler, Channels, handle_edc_response, status_of,
}
use poselink_api_middleware.Handlers.Edc.Laws.{IsUpdated, load-handle_edc_response}
use poselink_api_middleware.Ably.Subscribing.{ResponseReader, text_data, read_message, receive}

ok_injective : {A : Type 0} {a b : A} → ◌≡◌ {A = Result Ecb.CryptoError A} (ok a) (ok b) → a ≡ b
ok_injective e = cc

module _ {Fields : Type 0} (a : ResponseReader Fields) (P : Ecb.IsLawful a.primitives) where
  decrypted_back :
      (json encrypted : List ℕ)
      → AreBytes json
      → encrypt_aes128_ecb a.primitives json a.encryption_secret ≡ ok encrypted
      → decrypt_aes128_ecb a.primitives encrypted a.encryption_secret ≡ ok json
  decrypted_back json encrypted bytes sealed =
      let (e, made, back) = decrypt-encrypt a.primitives P json a.encryption_secret bytes in
      let same : e ≡ encrypted = ok_injective (sym made ∙ sealed) in
      subst (λ c. decrypt_aes128_ecb a.primitives c a.encryption_secret ≡ ok json) same back

  read-encrypt :
      (json encrypted : List ℕ) (r : EdcResponse)
      → AreBytes json
      → encrypt_aes128_ecb a.primitives json a.encryption_secret ≡ ok encrypted
      → a.unmarshal json ≡ ok r
      → read_message a (text_data encrypted) ≡ some r
  unfolding read_message
  read-encrypt json encrypted r bytes sealed reads =
      ground (arith, decrypted_back json encrypted bytes sealed, reads)

  -- A message that is such an encryption changes the world as its response does.
  pub receive-encrypt :
      {W : Type 0} (h : EdcResponseHandler W) (acts : W → W) (w : W) (channels : Channels)
      (json encrypted : List ℕ) (r : EdcResponse)
      → AreBytes json
      → encrypt_aes128_ecb a.primitives json a.encryption_secret ≡ ok encrypted
      → a.unmarshal json ≡ ok r
      → (receive a h acts w channels (text_data encrypted)).0
        ≡ (handle_edc_response h acts w channels r).0
  unfolding receive
  receive-encrypt h acts w channels json encrypted r bytes sealed reads =
      rw (read-encrypt json encrypted r bytes sealed reads, receive) refl

  -- With a lawful cipher and store, a text message that is the encryption, under the client's secret, of JSON
  -- bytes that decode to `r` is handled like `r`: once the handler has got to the notification, the
  -- transaction of `r` holds `r` and its status.
  pub load-receive :
      {W : Type 0} (h : EdcResponseHandler W) {S : Store.Promise W} (L : Store.IsLawful h.store S)
      (acts : W → W) (w : W) (channels : Channels) (json encrypted : List ℕ) (r : EdcResponse)
      → AreBytes json
      → encrypt_aes128_ecb a.primitives json a.encryption_secret ≡ ok encrypted
      → a.unmarshal json ≡ ok r
      → IsUpdated (handle_edc_response h acts w channels r).2
      → (tx : Transaction) × (h.store.load
            (receive a h acts w channels (text_data encrypted)).0
            r.trx_id
          ≡ some tx)
        × (tx.status ≡ status_of r)
        × (tx.response_data ≡ some r)
  unfolding receive
  load-receive h L acts w channels json encrypted r bytes sealed reads done =
      rw (read-encrypt json encrypted r bytes sealed reads, receive)
        (load-handle_edc_response h L acts w channels r done)
