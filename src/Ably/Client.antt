-- ===== src/Ably/Client.antt =====
-- `AblyClient` of internal/ably/publisher.go: how it is made, and how it subscribes.
use poselink_api_middleware.Common.{
  ℕ, ◌<>◌, String, Option, none, some, List, Result, ok, err, Done, ◌≡◌, sym, ap, inl, inr, arith,
  Result-cases,
}
use poselink_api_middleware.Models.{EdcResponse}
use poselink_api_middleware.Crypto.Ecb.{Primitives}
use poselink_api_middleware.Ably.{AblyPublisher}
use poselink_api_middleware.Ably.Publishing.{RestClient, publish_payment_request}
use poselink_api_middleware.Ably.Subscribing.{ResponseReader}

-- The realtime client of the Ably SDK: `subscribe` takes a channel and an event name.
pub record Realtime (W : Type 0) : Type 0 where
  pub subscribe : W → String → String → W × Option String

-- `ably.NewREST` and `ably.NewRealtime` with a key.
pub record AblySdk (W : Type 0) : Type 0 where
  pub new_rest : String → Result String (RestClient W)
  pub new_realtime : String → Result String (Realtime W)

-- What the callback for a message needs beside the secret, which is not in the repository: JSON, the cipher, and
-- the bytes of a text.
pub record Decoding (Fields : Type 0) : Type 0 where
  pub primitives : Primitives
  pub bytes : String → List ℕ
  pub marshal : Fields → Result String (List ℕ)
  pub unmarshal : List ℕ → Result String EdcResponse

pub record AblyClient (W : Type 0) : Type 0 where
  pub realtime_client : Realtime W
  pub rest_client : RestClient W
  pub encryption_secret : String

-- `NewAblyClient`
unfoldable pub new_ably_client :
    {W : Type 0} → AblySdk W → String → String → Result String (AblyClient W)
new_ably_client sdk api_key encryption_secret = elim (sdk.new_rest api_key) [
  | err e ↦ err ("failed to initialize Ably REST client: " <> e)
  | ok rest_client ↦ elim (sdk.new_realtime api_key) [
    | err e ↦ err ("failed to initialize Ably Realtime client: " <> e)
    | ok realtime_client ↦ ok (record {
      realtime_client = realtime_client;
      rest_client = rest_client;
      encryption_secret = encryption_secret;
    })
  ]
]

-- A client keeps the secret that it is made with.
pub new_ably_client-encryption_secret :
    {W : Type 0} (sdk : AblySdk W) (api_key encryption_secret : String) (a : AblyClient W)
    → new_ably_client sdk api_key encryption_secret ≡ ok a
    → a.encryption_secret ≡ encryption_secret
unfolding new_ably_client
new_ably_client-encryption_secret {W = W} sdk api_key encryption_secret a made =
    elim (Result-cases (sdk.new_rest api_key)) [
      | inr (e, failed) ↦ absurd (ground (arith, failed, made))
      | inl (rest, rest_made) ↦ elim (Result-cases (sdk.new_realtime api_key)) [
        | inr (e, failed) ↦ absurd (ground (arith, failed, rest_made, made))
        | inl (realtime, realtime_made) ↦
            sym (ap secret (rw (rest_made, realtime_made, new_ably_client) at made))
      ]
    ]
  where
    secret : Result String (AblyClient W) → String
    secret (ok b) = b.encryption_secret
    secret (err e) = ""

-- The methods of the interface `AblyPublisher`.
abbrev pub ably_publisher : {W : Type 0} → AblyClient W → AblyPublisher W
ably_publisher a = record { publish_payment_request = publish_payment_request a.rest_client }

abbrev subscribed : {W : Type 0} → W × Option String → W × Done
subscribed (w, none) = (w, ok tt)
subscribed (w, some e) = (w, err ("failed to subscribe to EDC responses: " <> e))

-- `SubscribeToResponses`, up to its return. The callback is `Subscribing.receive`.
unfoldable pub subscribe_to_responses : {W : Type 0} → AblyClient W → W → W × Done
subscribe_to_responses a w =
    subscribed (a.realtime_client.subscribe w "response:*" "payment_result")

-- What the callback reads its messages with.
abbrev pub reader : {W Fields : Type 0} → AblyClient W → Decoding Fields → ResponseReader Fields
reader a d = record {
  primitives = d.primitives;
  encryption_secret = d.bytes a.encryption_secret;
  marshal = d.marshal;
  unmarshal = d.unmarshal;
}
