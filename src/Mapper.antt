-- ===== src/Mapper.antt =====
-- internal/mapper: the serial number of the EDC device of a merchant (MID) and terminal (TID).
pub mod Keys
pub mod InMemory
pub mod RedisMapper
use poselink_api_middleware.Common.{String, Result}

-- The interface `MIDTIDMapper`, over the world that a mapper reads.
pub record MidTidMapper (W : Type 0) : Type 0 where
  pub get_serial_number : W → String → String → Result String String
