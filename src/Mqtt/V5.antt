-- ===== src/Mqtt/V5.antt =====
-- mqtt/src/v5: the codec of MQTT 5.
pub mod Primitives
pub mod FixedHeader
pub mod ReasonCode
pub mod Properties
pub mod Frame
pub mod Normalized
pub mod Reasoned
pub mod Ack
pub mod ConnectFlags
pub mod Connect
pub mod Subscribe
pub mod Unsubscribe
pub mod Publish
pub mod Each
pub mod Suback
pub mod Unsuback
pub mod Auth
pub mod Connack
pub mod Disconnect
pub mod Pingreq
pub mod Pingresp
pub mod Codec
mod CodecTests
mod Tests
