-- ===== src/Mqtt/V5/Properties.antt =====
-- mqtt/src/v5/properties.rs: the properties of MQTT 5 packets on the wire.
pub mod Identifier
pub mod Codes
pub mod Parse
pub mod Encode
pub mod Rounds
pub mod Kinds
pub mod Encodable
pub mod NumberTurns
pub mod TextTurns
pub mod FlagTurns
pub mod ListTurns
pub mod RoundTrip
pub mod Changes
pub mod Present
pub mod Ranges
pub mod Accepted
pub mod Fuel
