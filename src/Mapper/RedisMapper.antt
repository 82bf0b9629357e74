-- ===== src/Mapper/RedisMapper.antt =====
-- internal/mapper/redis_mapper.go: mappings in Redis.
pub mod Laws
use poselink_api_middleware.Common.{◌<>◌, String, Option, none, some, Result, ok, err, Done}
use poselink_api_middleware.Redis.{Redis, RedisError, nil_reply, tx_failed, failed}
use poselink_api_middleware.Mapper.{MidTidMapper}
use poselink_api_middleware.Mapper.Keys.{mapping_key}

module _ {W : Type 0} (client : Redis W) where
  unfoldable pub get_serial_number : W → String → String → Result String String
  get_serial_number w mid tid = elim (client.get w (mapping_key mid tid)) [
    | err nil_reply ↦ err ("unknown mid/tid combination: " <> mid <> ":" <> tid)
    | err tx_failed ↦ err ("failed to get mapping from Redis: " <> client.error_text tx_failed)
    | err (failed e) ↦ err ("failed to get mapping from Redis: " <> client.error_text (failed e))
    | ok serial_number ↦ ok serial_number
  ]

  -- An error of the client, with the text in front of it.
  abbrev wrapped : String → W × Option RedisError → W × Done
  wrapped text (w, none) = (w, ok tt)
  wrapped text (w, some e) = (w, err (text <> client.error_text e))

  unfoldable pub set_mapping : W → String → String → String → W × Done
  set_mapping w mid tid serial_number =
      wrapped "failed to set mapping in Redis: "
        (client.set w (mapping_key mid tid) serial_number 0)

  unfoldable pub delete_mapping : W → String → String → W × Done
  delete_mapping w mid tid =
      wrapped "failed to delete mapping from Redis: " (client.del w (mapping_key mid tid))

  abbrev pub redis_mapper : MidTidMapper W
  redis_mapper = record { get_serial_number = get_serial_number }
