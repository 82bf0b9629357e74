-- ===== src/Tests/Delivery.antt =====
-- A payment through the program that `Startup` starts, with the device's encrypted message.
use poselink_api_middleware.Common.{
  ℕ, ◌≡◌, refl, none, some, false, List, [], ◌∷◌, ok, arith, eq_iff,
}
use poselink_api_middleware.Common.Texts.{trim_space}
use poselink_api_middleware.Redis.Memory.{Server, memory, memory-IsLawful, quiet-IsFair}
use poselink_api_middleware.Config.{load_config, number_setting}
use poselink_api_middleware.Config.Atoi.{atoi}
use poselink_api_middleware.Store.Connecting.{new_redis_client}
use poselink_api_middleware.Store.Stamp.{stamp}
use poselink_api_middleware.Store.RedisStore.{store, load, update}
use poselink_api_middleware.Store.RedisStore.Keys.{transaction_key}
use poselink_api_middleware.Mapper.Keys.{mapping_key}
use poselink_api_middleware.Mapper.RedisMapper.{get_serial_number, set_mapping}
use poselink_api_middleware.Crypto.Hex.{hex_encode, hex_decode}
use poselink_api_middleware.Crypto.Base64.{base64_encode}
use poselink_api_middleware.Crypto.Padding.{pkcs5_pad, block_size}
use poselink_api_middleware.Crypto.Ecb.{derive_key_from_secret, encrypt_aes128_ecb, each_block}
use poselink_api_middleware.Http.{new_writer, edc_body, write_json_response}
use poselink_api_middleware.Handlers.Edc.{Channels, handle_edc_response}
use poselink_api_middleware.Handlers.Hold.{is_hold_enabled}
use poselink_api_middleware.Handlers.Transaction.{
  Schedule, ticked, held, answered, new_transaction_handler, handle_transaction,
}
use poselink_api_middleware.Ably.Client.{Decoding, new_ably_client, subscribe_to_responses}
use poselink_api_middleware.Ably.Publishing.{publish_payment_request}
use poselink_api_middleware.Main.{new_app, main}
use poselink_api_middleware.Main.EndToEnd.{message, main-responded}
use poselink_api_middleware.Tests.Codec.{text_codec, text_codec-IsLawful}
use poselink_api_middleware.Tests.Samples.{paid_response, request, sale, server, quiet_store}
use poselink_api_middleware.Tests.Secrets.{open_cipher, open_cipher-IsLawful, short}
use poselink_api_middleware.Tests.Settings.{defaults}
use poselink_api_middleware.Tests.Startup.{host, app}

runs : Unit {0}
unfolding load_config number_setting atoi new_redis_client new_ably_client subscribe_to_responses
    main store load update memory text_codec transaction_key stamp get_serial_number set_mapping
    mapping_key held is_hold_enabled handle_edc_response trim_space new_app new_transaction_handler
    publish_payment_request hex_encode hex_decode base64_encode pkcs5_pad derive_key_from_secret
    encrypt_aes128_ecb each_block
runs = tt

abbrev decoding : Decoding (Unit {0})
decoding = record {
  primitives = open_cipher;
  bytes = λ s. 1 ∷ [];
  marshal = λ fields. ok [];
  unmarshal = λ json. ok paid_response;
}

-- The server with a mapping for the merchant, and once the sale is stored.
ready : Server
unfolding runs
ready = (set_mapping memory server "M1" "7" "SN1").0

waiting_server : Server
unfolding ready
waiting_server = (store quiet_store ready "T1" (some sale)).0

abbrev still : Server → Server
still s = s

abbrev channels : Channels
channels c = false

abbrev sealed : List ℕ
sealed = base64_encode (pkcs5_pad short block_size)

abbrev delivered : Server → Server
delivered s = message decoding app still channels sealed s

abbrev schedule : Schedule Server
schedule = record {
  notify_chan = 4;
  before_store = still;
  before_hold = still;
  before_publish = still;
  turns = ticked still ∷ ticked delivered ∷ [];
}

main-responded_example :
    handle_transaction app.transaction_handler schedule ready new_writer (ok request)
    ≡ answered
        (delivered waiting_server)
        (write_json_response 200 (edc_body paid_response) new_writer)
unfolding runs waiting_server
main-responded_example =
    main-responded host decoding (λ o. memory-IsLawful) text_codec-IsLawful (λ o. quiet-IsFair)
      (λ o. quiet-IsFair) open_cipher-IsLawful server ready waiting_server waiting_server app
      defaults schedule request new_writer (ticked still ∷ []) [] still channels short sealed
      paid_response refl refl (omega arith) refl refl
      ("SN1", (λ e. ground (arith, eq_iff "T1" "")), refl, refl, refl, refl) refl
      (record sale { created_at = 3; updated_at = 3; notify_chan = none }, refl, refl, refl) refl tt
