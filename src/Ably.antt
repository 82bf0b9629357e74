-- ===== src/Ably.antt =====
-- internal/ably/publisher.go: messages to and from the EDC devices over Ably.
pub mod Publishing
pub mod Subscribing
pub mod Client
use poselink_api_middleware.Common.{String, Done}

-- The part of the interface `AblyPublisher` that the transaction handler calls: the serial number, the token
-- and the transaction's id.
pub record AblyPublisher (W : Type 0) : Type 0 where
  pub publish_payment_request : W → String → String → String → W × Done
