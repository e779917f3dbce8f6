-- ===== src/Mqtt/V5/Auth.antt =====
-- mqtt/src/v5/auth.rs: the AUTH packet.
pub mod RoundTrip
use yed_mq.Base.{List, Result, codes, ok, ℕ, ◌>>=◌, ◌>>◌}
use yed_mq.Mqtt.Packet
use yed_mq.Mqtt.Packet.{Auth, Packet, auth, success}
use yed_mq.Mqtt.V5.Primitives.{Mqtt5ParseError, Parsed}
use yed_mq.Mqtt.V5.FixedHeader
use yed_mq.Mqtt.V5.FixedHeader.{ControlPacketType}
use yed_mq.Mqtt.V5.ReasonCode.{decode, allowed, decode_for_packet, validate_for_packet}
use yed_mq.Mqtt.V5.ReasonCode
use yed_mq.Mqtt.V5.Properties.Identifier.{PropertyScope}
use yed_mq.Mqtt.V5.Properties.Parse
use yed_mq.Mqtt.V5.Properties.Parse.{not_zero}
use yed_mq.Mqtt.V5.Properties.Encode
use yed_mq.Mqtt.V5.Properties.Encode.{Written}
use yed_mq.Mqtt.V5.Frame.{framed, header_for, is_success, split_body}
use yed_mq.Mqtt.V5.Reasoned.{read_reason, write_reason}

unfoldable pub parse_body : List ℕ → Result Mqtt5ParseError Auth
unfolding read_reason
parse_body input = do
  (reason_code, properties) ←
      read_reason (λ value. decode_for_packet value ControlPacketType.auth) success
        PropertyScope.auth (codes "AUTH reason code") (codes "AUTH payload has trailing bytes")
        input
  ok (record { reason_code = reason_code; properties = properties })

unfoldable pub parse : List ℕ → ℕ → Parsed Packet
unfolding parse_body header_for split_body
parse input max_message_size = do
  (fixed_header, input) ←
      header_for ControlPacketType.auth (codes "expected AUTH packet") input max_message_size
  (body, input) ← split_body (codes "AUTH body") fixed_header input
  packet ← parse_body body
  ok (Packet.auth packet, input)

unfoldable pub encode : Auth → Written
unfolding write_reason framed validate_for_packet
encode packet = do
  validate_for_packet packet.reason_code ControlPacketType.auth
  body ←
      write_reason PropertyScope.auth (is_success packet.reason_code) packet.reason_code
        packet.properties
  framed ControlPacketType.auth 0 body
