-- ===== src/Mqtt/V5/Connack.antt =====
-- mqtt/src/v5/connack.rs: the CONNACK packet.
pub mod RoundTrip
use yed_mq.Base.{
  List, Result, codes, ensure, if◌then◌else◌, not, ok, ℕ, ◌%◌, ◌&&◌, ◌/◌, ◌==◌, ◌>>=◌, ◌>>◌, ◌∷◌,
}
use yed_mq.Mqtt.Packet
use yed_mq.Mqtt.Packet.{
  Connack, Packet, ReasonCode, connack, malformed_packet, protocol_version, success, v5_0,
}
use yed_mq.Mqtt.V5.Primitives.{Mqtt5ParseError, Parsed, malformed_packet, parse_u8}
use yed_mq.Mqtt.V5.FixedHeader
use yed_mq.Mqtt.V5.FixedHeader.{ControlPacketType}
use yed_mq.Mqtt.V5.ReasonCode.{decode, allowed, decode_for_packet, validate_for_packet}
use yed_mq.Mqtt.V5.ReasonCode
use yed_mq.Mqtt.V5.Properties.Identifier.{PropertyScope}
use yed_mq.Mqtt.V5.Properties.Parse
use yed_mq.Mqtt.V5.Properties.Parse.{not_zero}
use yed_mq.Mqtt.V5.Properties.Encode
use yed_mq.Mqtt.V5.Properties.Encode.{Written}
use yed_mq.Mqtt.V5.Frame.{framed, header_for, is_empty, is_success, is_v5, split_body}

unfoldable pub parse_body : List ℕ → Result Mqtt5ParseError Connack
unfolding parse_u8
parse_body input = do
  (acknowledge_flags, input) ← parse_u8 input (codes "CONNACK acknowledge flags")
  ensure (acknowledge_flags / 2 == 0)
      (malformed_packet (codes "CONNACK acknowledge flags reserved bits must be zero"))
  let session_present = not (acknowledge_flags % 2 == 0)
  (value, input) ← parse_u8 input (codes "CONNACK reason code")
  reason_code ← decode_for_packet value ControlPacketType.connack
  ensure (not (not (is_success reason_code) && session_present))
      (malformed_packet (codes "CONNACK session present requires success reason code"))
  (properties, input) ← Parse.parse input PropertyScope.connack
  ensure (is_empty input) (malformed_packet (codes "CONNACK payload has trailing bytes"))
  ok (record {
    protocol_version = v5_0;
    session_present = session_present;
    reason_code = reason_code;
    properties = properties;
  })

unfoldable pub parse : List ℕ → ℕ → Parsed Packet
unfolding parse_body header_for split_body
parse input max_message_size = do
  (fixed_header, input) ←
      header_for ControlPacketType.connack (codes "expected CONNACK packet") input max_message_size
  (body, input) ← split_body (codes "CONNACK body") fixed_header input
  packet ← parse_body body
  ok (Packet.connack packet, input)

unfoldable pub encode : Connack → Written
unfolding framed validate_for_packet
encode packet = do
  ensure (is_v5 packet.protocol_version) (malformed_packet (codes "CONNACK packet is not MQTT 5.0"))
  ensure (not (not (is_success packet.reason_code) && packet.session_present))
      (malformed_packet (codes "CONNACK session present requires success reason code"))
  validate_for_packet packet.reason_code ControlPacketType.connack
  properties ← Encode.encode packet.properties PropertyScope.connack
  framed ControlPacketType.connack 0 (
      (if packet.session_present then 1 else 0) ∷ ReasonCode.encode packet.reason_code ∷ properties)
