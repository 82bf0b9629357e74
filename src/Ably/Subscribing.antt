-- ===== src/Ably/Subscribing.antt =====
-- The callback that `SubscribeToResponses` of internal/ably/publisher.go registers, with `HandleEDCResponse` as
-- its handler, as main.go sets it up.
pub mod Laws
use poselink_api_middleware.Common.{ℕ, String, Option, none, some, List, Result, ok, err}
use poselink_api_middleware.Models.{EdcResponse}
use poselink_api_middleware.Crypto.Ecb.{Primitives, decrypt_aes128_ecb}
use poselink_api_middleware.Handlers.Edc.{
  EdcResponseHandler, Channels, Handled, handle_edc_response,
}

-- `msg.Data` by its dynamic type: texts are their bytes, `Fields` stands for `map[string]interface{}`.
pub data MessageData (Fields : Type 0) : Type 0 where
  text_data bytes_data : List ℕ → MessageData Fields
  map_data : Fields → MessageData Fields
  other_data : MessageData Fields

-- The client's secret, the cipher, and the JSON encoder and decoder, which are not in the repository.
pub record ResponseReader (Fields : Type 0) : Type 0 where
  pub primitives : Primitives
  pub encryption_secret : List ℕ
  pub marshal : Fields → Result String (List ℕ)
  pub unmarshal : List ℕ → Result String EdcResponse

module _ {Fields : Type 0} (a : ResponseReader Fields) where
  abbrev decoded : Result String EdcResponse → Option EdcResponse
  decoded (err e) = none
  decoded (ok response) = some response

  decrypted : List ℕ → Option EdcResponse
  decrypted encrypted_data =
      elim (decrypt_aes128_ecb a.primitives encrypted_data a.encryption_secret) [
        | err e ↦ none
        | ok json ↦ decoded (a.unmarshal json)
      ]

  -- The response that is handed to the handler, if any.
  unfoldable pub read_message : MessageData Fields → Option EdcResponse
  unfolding decrypted
  read_message (text_data bytes) = decrypted bytes
  read_message (bytes_data bytes) = decrypted bytes
  read_message (map_data fields) = elim (a.marshal fields) [
    | err e ↦ none
    | ok json ↦ decoded (a.unmarshal json)
  ]
  read_message other_data = none

  -- A message and its handling; a message that does not decode is dropped.
  unfoldable pub receive :
      {W : Type 0}
      → EdcResponseHandler W
      → (W → W)
      → W
      → Channels
      → MessageData Fields
      → W × Channels × Option Handled
  receive h acts w channels message = elim (read_message message) [
    | none ↦ (w, channels, none)
    | some response ↦
        let (w', channels', result) = handle_edc_response h acts w channels response in
        (w', channels', some result)
  ]
