-- ===== src/Mqtt/V5/Ack.antt =====
-- mqtt/src/v5/ack.rs, puback.rs, pubrec.rs, pubrel.rs, pubcomp.rs: the acknowledgements of PUBLISH.
pub mod RoundTrip
use yed_mq.Base.{List, Result, codes, ensure, leb, length, not, ok, ℕ, ◌++◌, ◌>>=◌, ◌>>◌}
use yed_mq.Mqtt.Packet
use yed_mq.Mqtt.Packet.{
  Ack, Packet, malformed_packet, protocol_version, puback, pubcomp, publish, pubrec, pubrel,
  success, v5_0,
}
use yed_mq.Mqtt.V5.Primitives.{Mqtt5ParseError, Parsed, malformed_packet, parse_u16, put_u16}
use yed_mq.Mqtt.V5.FixedHeader
use yed_mq.Mqtt.V5.FixedHeader.{ControlPacketType}
use yed_mq.Mqtt.V5.ReasonCode.{decode, decode_for_packet, validate_for_packet}
use yed_mq.Mqtt.V5.Properties.Identifier.{PropertyScope}
use yed_mq.Mqtt.V5.Properties.Parse
use yed_mq.Mqtt.V5.Properties.Parse.{not_zero}
use yed_mq.Mqtt.V5.Properties.Encode
use yed_mq.Mqtt.V5.Properties.Encode.{Written}
use yed_mq.Mqtt.V5.Frame.{framed, header_for, is_success, is_v5, split_body}
use yed_mq.Mqtt.V5.Reasoned.{read_reason, write_reason}

unfoldable pub fixed_header_flags : ControlPacketType → ℕ
fixed_header_flags ControlPacketType.pubrel = 2
fixed_header_flags _ = 0

unfoldable pub parse_body : List ℕ → ControlPacketType → PropertyScope → Result Mqtt5ParseError Ack
unfolding read_reason
parse_body input packet_type property_scope = do
  (packet_identifier, input) ← parse_u16 input (codes "publish acknowledgement packet identifier")
  ensure (not_zero packet_identifier)
      (malformed_packet (codes "publish acknowledgement packet identifier must not be zero"))
  (reason_code, properties) ←
      read_reason (λ value. decode_for_packet value packet_type) success property_scope
        (codes "publish acknowledgement reason code")
        (codes "publish acknowledgement payload has trailing bytes") input
  ok (record {
    protocol_version = v5_0;
    packet_identifier = packet_identifier;
    reason_code = reason_code;
    properties = properties;
  })

unfoldable pub parse :
    List ℕ → ℕ → ControlPacketType → PropertyScope → (Ack → Packet) → Parsed Packet
unfolding parse_body header_for split_body
parse input max_message_size expected_packet_type property_scope packet_builder = do
  (fixed_header, input) ←
      header_for expected_packet_type (codes "unexpected publish acknowledgement packet type") input
        max_message_size
  ensure (leb 2 fixed_header.remaining_length)
      (malformed_packet (codes "publish acknowledgement remaining length must be at least 2"))
  (body, input) ← split_body (codes "publish acknowledgement body") fixed_header input
  ack ← parse_body body expected_packet_type property_scope
  ok (packet_builder ack, input)

unfoldable pub encode : Ack → ControlPacketType → PropertyScope → Written
unfolding write_reason framed validate_for_packet fixed_header_flags
encode packet packet_type property_scope = do
  ensure (is_v5 packet.protocol_version)
      (malformed_packet (codes "publish acknowledgement packet is not MQTT 5.0"))
  ensure (not_zero packet.packet_identifier)
      (malformed_packet (codes "publish acknowledgement packet identifier must not be zero"))
  validate_for_packet packet.reason_code packet_type
  tail ←
      write_reason property_scope (is_success packet.reason_code) packet.reason_code
        packet.properties
  framed packet_type (fixed_header_flags packet_type) (put_u16 packet.packet_identifier ++ tail)

abbrev pub parse_puback : List ℕ → ℕ → Parsed Packet
parse_puback input max_message_size =
    parse input max_message_size ControlPacketType.puback PropertyScope.puback puback

abbrev pub parse_pubrec : List ℕ → ℕ → Parsed Packet
parse_pubrec input max_message_size =
    parse input max_message_size ControlPacketType.pubrec PropertyScope.pubrec pubrec

abbrev pub parse_pubrel : List ℕ → ℕ → Parsed Packet
parse_pubrel input max_message_size =
    parse input max_message_size ControlPacketType.pubrel PropertyScope.pubrel pubrel

abbrev pub parse_pubcomp : List ℕ → ℕ → Parsed Packet
parse_pubcomp input max_message_size =
    parse input max_message_size ControlPacketType.pubcomp PropertyScope.pubcomp pubcomp

abbrev pub encode_puback : Ack → Written
encode_puback packet = encode packet ControlPacketType.puback PropertyScope.puback

abbrev pub encode_pubrec : Ack → Written
encode_pubrec packet = encode packet ControlPacketType.pubrec PropertyScope.pubrec

abbrev pub encode_pubrel : Ack → Written
encode_pubrel packet = encode packet ControlPacketType.pubrel PropertyScope.pubrel

abbrev pub encode_pubcomp : Ack → Written
encode_pubcomp packet = encode packet ControlPacketType.pubcomp PropertyScope.pubcomp
