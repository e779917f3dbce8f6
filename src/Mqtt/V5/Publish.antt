-- ===== src/Mqtt/V5/Publish.antt =====
-- mqtt/src/v5/publish.rs: the PUBLISH packet.
pub mod RoundTrip
use yed_mq.Base.{
  Bool, List, Option, Result, [], codes, ensure, err, if◌then◌else◌, leb, ltb, none, not, ok, some,
  ℕ, ◌%◌, ◌*◌, ◌++◌, ◌+◌, ◌==◌, ◌>>=◌, ◌>>◌, ◌||◌,
}
use yed_mq.Mqtt.Packet
use yed_mq.Mqtt.Packet.{Packet, Publish, malformed_packet, protocol_version, publish, v5_0}
use yed_mq.Mqtt.V5.Primitives.{
  Mqtt5ParseError, Parsed, encode_utf8_string, malformed_packet, parse_u16, parse_utf8_string,
  put_u16,
}
use yed_mq.Mqtt.V5.FixedHeader
use yed_mq.Mqtt.V5.FixedHeader.{ControlPacketType, FixedHeader}
use yed_mq.Mqtt.V5.Properties.Identifier.{PropertyScope}
use yed_mq.Mqtt.V5.Properties.Parse
use yed_mq.Mqtt.V5.Properties.Parse.{not_zero}
use yed_mq.Mqtt.V5.Properties.Encode
use yed_mq.Mqtt.V5.Properties.Encode.{Written}
use yed_mq.Mqtt.V5.Frame.{framed, header_for, is_empty, is_none, is_v5, split_body}

abbrev read_identifier : List ℕ → Parsed (Option ℕ)
read_identifier input = do
  (packet_identifier, input) ← parse_u16 input (codes "PUBLISH packet identifier")
  ensure (not_zero packet_identifier)
      (malformed_packet (codes "PUBLISH packet identifier must not be zero"))
  ok (some packet_identifier, input)

-- A packet identifier follows the topic name where the QoS is 1 or 2.
unfoldable pub parse_identifier : ℕ → List ℕ → Parsed (Option ℕ)
parse_identifier qos input = if ltb 0 qos then read_identifier input else ok (none, input)

unfoldable pub parse_body : List ℕ → FixedHeader → Result Mqtt5ParseError Publish
unfolding parse_identifier
parse_body input fixed_header = do
  (topic_name, input) ← parse_utf8_string input
  ensure (not (is_empty topic_name))
      (malformed_packet (codes "PUBLISH topic name must not be empty"))
  (packet_identifier, input) ← parse_identifier fixed_header.qos input
  (properties, input) ← Parse.parse input PropertyScope.publish
  ensure (is_none properties.topic_alias)
      (malformed_packet (codes "PUBLISH topic alias is not supported"))
  ok (record {
    protocol_version = v5_0;
    topic_name = topic_name;
    payload = input;
    qos = fixed_header.qos;
    retain = fixed_header.retain;
    dup = fixed_header.dup;
    packet_identifier = packet_identifier;
    properties = properties;
    expires_at_unix_secs = none;
  })

unfoldable pub parse : List ℕ → ℕ → Parsed Packet
unfolding parse_body header_for split_body
parse input max_message_size = do
  (fixed_header, input) ←
      header_for ControlPacketType.publish (codes "expected PUBLISH packet") input max_message_size
  (body, input) ← split_body (codes "PUBLISH body") fixed_header input
  packet ← parse_body body fixed_header
  ok (Packet.publish packet, input)

unfoldable pub check_identifier : ℕ → Option ℕ → Result Mqtt5ParseError (Unit {0})
check_identifier qos (some packet_identifier) =
    if qos == 0
    then err (malformed_packet (codes "QoS 0 PUBLISH must not include packet identifier"))
    else if leb qos 2
    then ensure (not_zero packet_identifier)
        (malformed_packet (codes "PUBLISH packet identifier must not be zero"))
    else ok tt
check_identifier qos none =
    if qos == 1 || qos == 2
    then err (malformed_packet (codes "QoS 1 or 2 PUBLISH requires packet identifier"))
    else ok tt

abbrev pub write_identifier : Option ℕ → List ℕ
write_identifier none = []
write_identifier (some packet_identifier) = put_u16 packet_identifier

abbrev pub flags_of : Bool → ℕ → Bool → ℕ
flags_of dup qos retain = (if dup then 8 else 0) + qos % 4 * 2 + (if retain then 1 else 0)

unfoldable pub encode : Publish → Written
unfolding framed check_identifier
encode packet = do
  ensure (is_v5 packet.protocol_version) (malformed_packet (codes "PUBLISH packet is not MQTT 5.0"))
  ensure (leb packet.qos 2) (malformed_packet (codes "PUBLISH QoS must be 0, 1, or 2"))
  ensure (not (is_empty packet.topic_name))
      (malformed_packet (codes "PUBLISH topic name must not be empty"))
  ensure (is_none packet.properties.topic_alias)
      (malformed_packet (codes "PUBLISH topic alias is not supported"))
  check_identifier packet.qos packet.packet_identifier
  topic_name ← encode_utf8_string packet.topic_name
  properties ← Encode.encode packet.properties PropertyScope.publish
  framed ControlPacketType.publish (flags_of packet.dup packet.qos packet.retain)
      (topic_name ++ (write_identifier packet.packet_identifier ++ (properties ++ packet.payload)))
