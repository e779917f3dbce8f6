-- ===== src/Mqtt/V5/Suback.antt =====
-- mqtt/src/v5/suback.rs: the SUBACK packet.
pub mod RoundTrip
use yed_mq.Base.{
  List, Result, codes, ensure, if◌then◌else◌, map, not, ok, ℕ, ◌++◌, ◌==◌, ◌>>=◌, ◌>>◌,
}
use yed_mq.Mqtt.Packet
use yed_mq.Mqtt.Packet.{
  Packet, ReasonCode, Suback, granted_qos0, granted_qos1, granted_qos2, malformed_packet,
  protocol_version, suback, v5_0,
}
use yed_mq.Mqtt.V5.Primitives.{Mqtt5ParseError, Parsed, malformed_packet, parse_u16, put_u16}
use yed_mq.Mqtt.V5.FixedHeader
use yed_mq.Mqtt.V5.FixedHeader.{ControlPacketType}
use yed_mq.Mqtt.V5.ReasonCode.{decode, allowed, decode_for_packet, validate_for_packet}
use yed_mq.Mqtt.V5.ReasonCode
use yed_mq.Mqtt.V5.Properties.Identifier.{PropertyScope}
use yed_mq.Mqtt.V5.Properties.Parse
use yed_mq.Mqtt.V5.Properties.Parse.{not_zero}
use yed_mq.Mqtt.V5.Properties.Encode
use yed_mq.Mqtt.V5.Properties.Encode.{Written}
use yed_mq.Mqtt.V5.Frame.{framed, header_for, is_empty, is_v5, split_body}
use yed_mq.Mqtt.V5.Each.{try_map, check_all}

unfoldable pub decode_suback_reason_code : ℕ → Result Mqtt5ParseError ReasonCode
unfolding validate_for_packet
decode_suback_reason_code value = do
  reason_code ←
      if value == 0
      then ok granted_qos0
      else if value == 1
      then ok granted_qos1
      else if value == 2
      then ok granted_qos2
      else decode value
  validate_for_packet reason_code ControlPacketType.suback
  ok reason_code

unfoldable pub parse_body : List ℕ → Result Mqtt5ParseError Suback
unfolding try_map decode_suback_reason_code
parse_body input = do
  (packet_identifier, input) ← parse_u16 input (codes "SUBACK packet identifier")
  ensure (not_zero packet_identifier)
      (malformed_packet (codes "SUBACK packet identifier must not be zero"))
  (properties, input) ← Parse.parse input PropertyScope.suback
  ensure (not (is_empty input))
      (malformed_packet (codes "SUBACK must contain at least one reason code"))
  reason_codes ← try_map decode_suback_reason_code input
  ok (record {
    protocol_version = v5_0;
    packet_identifier = packet_identifier;
    reason_codes = reason_codes;
    properties = properties;
  })

unfoldable pub parse : List ℕ → ℕ → Parsed Packet
unfolding parse_body header_for split_body
parse input max_message_size = do
  (fixed_header, input) ←
      header_for ControlPacketType.suback (codes "expected SUBACK packet") input max_message_size
  (body, input) ← split_body (codes "SUBACK body") fixed_header input
  packet ← parse_body body
  ok (Packet.suback packet, input)

unfoldable pub encode : Suback → Written
unfolding framed validate_for_packet check_all
encode packet = do
  ensure (is_v5 packet.protocol_version) (malformed_packet (codes "SUBACK packet is not MQTT 5.0"))
  ensure (not_zero packet.packet_identifier)
      (malformed_packet (codes "SUBACK packet identifier must not be zero"))
  ensure (not (is_empty packet.reason_codes))
      (malformed_packet (codes "SUBACK must contain at least one reason code"))
  check_all (λ reason_code. validate_for_packet reason_code ControlPacketType.suback)
      packet.reason_codes
  properties ← Encode.encode packet.properties PropertyScope.suback
  framed ControlPacketType.suback 0 (
      put_u16 packet.packet_identifier ++ (properties ++ map ReasonCode.encode packet.reason_codes))
