-- ===== src/Mqtt/V5/Unsubscribe.antt =====
-- mqtt/src/v5/unsubscribe.rs: the UNSUBSCRIBE packet.
pub mod RoundTrip
use yed_mq.Base.{List, Result, Text, codes, ensure, length, map, not, ok, ℕ, ◌++◌, ◌>>=◌, ◌>>◌}
use yed_mq.Mqtt.Packet
use yed_mq.Mqtt.Packet.{Packet, Unsubscribe, malformed_packet, protocol_version, unsubscribe, v5_0}
use yed_mq.Mqtt.V5.Primitives.{
  Mqtt5ParseError, Parsed, encode_utf8_string, malformed_packet, parse_u16, parse_utf8_string,
  put_u16,
}
use yed_mq.Mqtt.V5.FixedHeader
use yed_mq.Mqtt.V5.FixedHeader.{ControlPacketType}
use yed_mq.Mqtt.V5.Properties.Identifier.{PropertyScope}
use yed_mq.Mqtt.V5.Properties.Parse
use yed_mq.Mqtt.V5.Properties.Parse.{not_zero}
use yed_mq.Mqtt.V5.Properties.Encode
use yed_mq.Mqtt.V5.Properties.Encode.{Written}
use yed_mq.Mqtt.V5.Frame.{framed, header_for, is_empty, is_v5, split_body}
use yed_mq.Mqtt.V5.Properties.Encode.{write_all}
use yed_mq.Mqtt.V5.Each.{read_all}

unfoldable pub parse_one : List ℕ → Parsed Text
parse_one input = do
  (topic, remaining) ← parse_utf8_string input
  ensure (not (is_empty topic))
      (malformed_packet (codes "UNSUBSCRIBE topic filter must not be empty"))
  ok (topic, remaining)

unfoldable pub encode_one : Text → Written
encode_one topic = do
  ensure (not (is_empty topic))
      (malformed_packet (codes "UNSUBSCRIBE topic filter must not be empty"))
  encode_utf8_string topic

unfoldable pub parse_body : List ℕ → Result Mqtt5ParseError Unsubscribe
unfolding read_all parse_one
parse_body input = do
  (packet_identifier, input) ← parse_u16 input (codes "UNSUBSCRIBE packet identifier")
  ensure (not_zero packet_identifier)
      (malformed_packet (codes "UNSUBSCRIBE packet identifier must not be zero"))
  (properties, input) ← Parse.parse input PropertyScope.unsubscribe
  topics ← read_all parse_one (length input) input
  ensure (not (is_empty topics))
      (malformed_packet (codes "UNSUBSCRIBE must contain at least one topic filter"))
  ok (record {
    protocol_version = v5_0;
    packet_identifier = packet_identifier;
    topics = topics;
    properties = properties;
  })

unfoldable pub parse : List ℕ → ℕ → Parsed Packet
unfolding parse_body header_for split_body
parse input max_message_size = do
  (fixed_header, input) ←
      header_for ControlPacketType.unsubscribe (codes "expected UNSUBSCRIBE packet") input
        max_message_size
  (body, input) ← split_body (codes "UNSUBSCRIBE body") fixed_header input
  packet ← parse_body body
  ok (Packet.unsubscribe packet, input)

unfoldable pub encode : Unsubscribe → Written
unfolding framed encode_one write_all
encode packet = do
  ensure (is_v5 packet.protocol_version)
      (malformed_packet (codes "UNSUBSCRIBE packet is not MQTT 5.0"))
  ensure (not_zero packet.packet_identifier)
      (malformed_packet (codes "UNSUBSCRIBE packet identifier must not be zero"))
  ensure (not (is_empty packet.topics))
      (malformed_packet (codes "UNSUBSCRIBE must contain at least one topic filter"))
  properties ← Encode.encode packet.properties PropertyScope.unsubscribe
  topics ← write_all (map encode_one packet.topics)
  framed ControlPacketType.unsubscribe 2
      (put_u16 packet.packet_identifier ++ (properties ++ topics))
