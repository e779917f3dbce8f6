-- ===== src/Mqtt/V5/Subscribe.antt =====
-- mqtt/src/v5/subscribe.rs: the SUBSCRIBE packet.
pub mod RoundTrip
use yed_mq.Base.{
  List, Result, Text, [], codes, ensure, err, if◌then◌else◌, leb, length, map, not, ok, ℕ, ◌%◌, ◌*◌,
  ◌++◌, ◌+◌, ◌/◌, ◌==◌, ◌>>=◌, ◌>>◌, ◌∷◌,
}
use yed_mq.Mqtt.Packet
use yed_mq.Mqtt.Packet.{
  Packet, RetainHandling, Subscribe, SubscribeTopic, do_not_send, malformed_packet,
  protocol_version, send_at_subscribe, send_at_subscribe_if_new, subscribe, v5_0,
}
use yed_mq.Mqtt.V5.Primitives.{
  Mqtt5ParseError, Parsed, encode_utf8_string, malformed_packet, parse_u16, parse_u8,
  parse_utf8_string, put_u16,
}
use yed_mq.Mqtt.V5.FixedHeader
use yed_mq.Mqtt.V5.FixedHeader.{ControlPacketType}
use yed_mq.Mqtt.V5.Properties.Identifier.{PropertyScope}
use yed_mq.Mqtt.V5.Properties.Parse
use yed_mq.Mqtt.V5.Properties.Parse.{not_zero}
use yed_mq.Mqtt.V5.Properties.Encode
use yed_mq.Mqtt.V5.Properties.Encode.{Written}
use yed_mq.Mqtt.V5.Frame.{framed, header_for, is_empty, is_v5, split_body}
use yed_mq.Mqtt.V5.Properties.Encode.{write_all}
use yed_mq.Mqtt.V5.Each.{read_all}

abbrev retain_handling_of : ℕ → Result Mqtt5ParseError RetainHandling
retain_handling_of value =
    if value == 0
    then ok send_at_subscribe
    else if value == 1
    then ok send_at_subscribe_if_new
    else if value == 2
    then ok do_not_send
    else err (malformed_packet (codes "SUBSCRIBE retain handling must not be 3"))

-- The bits of the options, from the highest: two reserved, two for the handling of retained messages,
-- one each for `retain_as_published` and `no_local`, two for the QoS.
unfoldable pub parse_topic : Text → ℕ → Result Mqtt5ParseError SubscribeTopic
parse_topic topic_filter options = do
  ensure (options / 64 == 0)
      (malformed_packet (codes "SUBSCRIBE option reserved bits must be zero"))
  ensure (not (options % 4 == 3)) (malformed_packet (codes "SUBSCRIBE requested QoS must not be 3"))
  retain_handling ← retain_handling_of (options / 16 % 4)
  ok (record {
    topic_filter = topic_filter;
    qos = options % 4;
    no_local = not (options / 4 % 2 == 0);
    retain_as_published = not (options / 8 % 2 == 0);
    retain_handling = retain_handling;
  })

unfoldable pub parse_one : List ℕ → Parsed SubscribeTopic
unfolding parse_topic
parse_one input = do
  (topic_filter, remaining) ← parse_utf8_string input
  ensure (not (is_empty topic_filter))
      (malformed_packet (codes "SUBSCRIBE topic filter must not be empty"))
  (options, remaining) ← parse_u8 remaining (codes "SUBSCRIBE options")
  topic ← parse_topic topic_filter options
  ok (topic, remaining)

abbrev handling_code : RetainHandling → ℕ
handling_code send_at_subscribe = 0
handling_code send_at_subscribe_if_new = 1
handling_code do_not_send = 2

unfoldable pub encode_options : SubscribeTopic → ℕ
encode_options topic =
    topic.qos % 4
    + (if topic.no_local then 4 else 0)
    + (if topic.retain_as_published then 8 else 0)
    + handling_code topic.retain_handling * 16

unfoldable pub encode_one : SubscribeTopic → Written
unfolding encode_options
encode_one topic = do
  ensure (not (is_empty topic.topic_filter))
      (malformed_packet (codes "SUBSCRIBE topic filter must not be empty"))
  ensure (leb topic.qos 2) (malformed_packet (codes "SUBSCRIBE requested QoS must be 0, 1, or 2"))
  topic_filter ← encode_utf8_string topic.topic_filter
  ok (topic_filter ++ encode_options topic ∷ [])

unfoldable pub parse_body : List ℕ → Result Mqtt5ParseError Subscribe
unfolding read_all parse_one
parse_body input = do
  (packet_identifier, input) ← parse_u16 input (codes "SUBSCRIBE packet identifier")
  ensure (not_zero packet_identifier)
      (malformed_packet (codes "SUBSCRIBE packet identifier must not be zero"))
  (properties, input) ← Parse.parse input PropertyScope.subscribe
  topics ← read_all parse_one (length input) input
  ensure (not (is_empty topics))
      (malformed_packet (codes "SUBSCRIBE must contain at least one topic filter"))
  ok (record {
    protocol_version = v5_0;
    packet_identifier = packet_identifier;
    topics = topics;
    properties = properties;
  })

unfoldable pub parse : List ℕ → ℕ → Parsed Packet
unfolding parse_body header_for split_body
parse input max_message_size = do
  (fixed_header, input) ←
      header_for ControlPacketType.subscribe (codes "expected SUBSCRIBE packet") input
        max_message_size
  (body, input) ← split_body (codes "SUBSCRIBE body") fixed_header input
  packet ← parse_body body
  ok (Packet.subscribe packet, input)

unfoldable pub encode : Subscribe → Written
unfolding framed encode_one write_all
encode packet = do
  ensure (is_v5 packet.protocol_version)
      (malformed_packet (codes "SUBSCRIBE packet is not MQTT 5.0"))
  ensure (not_zero packet.packet_identifier)
      (malformed_packet (codes "SUBSCRIBE packet identifier must not be zero"))
  ensure (not (is_empty packet.topics))
      (malformed_packet (codes "SUBSCRIBE must contain at least one topic filter"))
  properties ← Encode.encode packet.properties PropertyScope.subscribe
  topics ← write_all (map encode_one packet.topics)
  framed ControlPacketType.subscribe 2 (put_u16 packet.packet_identifier ++ (properties ++ topics))
