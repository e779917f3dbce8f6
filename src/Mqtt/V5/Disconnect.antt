-- ===== src/Mqtt/V5/Disconnect.antt =====
-- mqtt/src/v5/disconnect.rs: the DISCONNECT packet.
pub mod RoundTrip
use yed_mq.Base.{
  Bool, List, Result, codes, ensure, false, if◌then◌else◌, not, ok, true, ℕ, ◌==◌, ◌>>=◌, ◌>>◌,
}
use yed_mq.Mqtt.Packet
use yed_mq.Mqtt.Packet.{
  Disconnect, Packet, Properties, ReasonCode, disconnect, malformed_packet, normal_disconnection,
  protocol_version, v5_0,
}
use yed_mq.Mqtt.V5.Primitives.{Mqtt5ParseError, Parsed, malformed_packet}
use yed_mq.Mqtt.V5.FixedHeader
use yed_mq.Mqtt.V5.FixedHeader.{ControlPacketType}
use yed_mq.Mqtt.V5.ReasonCode.{decode, allowed, decode_for_packet, validate_for_packet}
use yed_mq.Mqtt.V5.ReasonCode
use yed_mq.Mqtt.V5.Properties.Identifier.{PropertyScope}
use yed_mq.Mqtt.V5.Properties.Parse
use yed_mq.Mqtt.V5.Properties.Parse.{not_zero}
use yed_mq.Mqtt.V5.Properties.Encode
use yed_mq.Mqtt.V5.Properties.Encode.{Written}
use yed_mq.Mqtt.V5.Frame.{framed, header_for, is_v5, split_body}
use yed_mq.Mqtt.V5.Normalized.{normalized_properties}
use yed_mq.Mqtt.V5.Reasoned.{read_reason, write_reason}

unfoldable pub decode_disconnect_reason_code : ℕ → Result Mqtt5ParseError ReasonCode
unfolding validate_for_packet
decode_disconnect_reason_code value = do
  reason_code ← if value == 0 then ok normal_disconnection else decode value
  validate_for_packet reason_code ControlPacketType.disconnect
  ok reason_code

unfoldable pub normalized_disconnect_properties : Disconnect → Result Mqtt5ParseError Properties
unfolding normalized_properties
normalized_disconnect_properties packet =
    normalized_properties (codes "DISCONNECT session expiry interval disagrees with properties")
      packet.session_expiry_interval packet.properties

abbrev pub is_normal : ReasonCode → Bool
is_normal normal_disconnection = true
is_normal _ = false

unfoldable pub parse_body : List ℕ → Result Mqtt5ParseError Disconnect
unfolding read_reason
parse_body input = do
  (reason_code, properties) ←
      read_reason decode_disconnect_reason_code normal_disconnection PropertyScope.disconnect
        (codes "DISCONNECT reason code") (codes "DISCONNECT payload has trailing bytes") input
  ok (record {
    protocol_version = v5_0;
    reason_code = reason_code;
    session_expiry_interval = properties.session_expiry_interval;
    properties = properties;
  })

unfoldable pub parse : List ℕ → ℕ → Parsed Packet
unfolding parse_body header_for split_body
parse input max_message_size = do
  (fixed_header, input) ←
      header_for ControlPacketType.disconnect (codes "expected DISCONNECT packet") input
        max_message_size
  (body, input) ← split_body (codes "DISCONNECT body") fixed_header input
  packet ← parse_body body
  ok (Packet.disconnect packet, input)

unfoldable pub encode : Disconnect → Written
unfolding write_reason framed validate_for_packet normalized_disconnect_properties
encode packet = do
  ensure (is_v5 packet.protocol_version)
      (malformed_packet (codes "DISCONNECT packet is not MQTT 5.0"))
  validate_for_packet packet.reason_code ControlPacketType.disconnect
  properties ← normalized_disconnect_properties packet
  body ←
      write_reason PropertyScope.disconnect (is_normal packet.reason_code) packet.reason_code
        properties
  framed ControlPacketType.disconnect 0 body
