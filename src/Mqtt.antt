-- ===== src/Mqtt.antt =====
-- mqtt/src: the packets of MQTT, and the wire format of MQTT 5.
pub mod Packet
pub mod Expiry
mod Tests
pub mod V5
