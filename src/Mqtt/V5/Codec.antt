-- ===== src/Mqtt/V5/Codec.antt =====
-- mqtt/src/v5/mod.rs: the parser and the encoder of any packet.
pub mod Dispatch
pub mod Received
pub mod RoundTrip
use yed_mq.Base.{List, ℕ, ◌>>=◌, ◌>>◌}
use yed_mq.Mqtt.Packet
use yed_mq.Mqtt.Packet.{Packet}
use yed_mq.Mqtt.V5.Primitives.{Mqtt5ParseError, Parsed}
use yed_mq.Mqtt.V5.FixedHeader
use yed_mq.Mqtt.V5.FixedHeader.{ControlPacketType}
use yed_mq.Mqtt.V5.Properties.Encode.{Written}
use yed_mq.Mqtt.V5.Connect
use yed_mq.Mqtt.V5.Connack
use yed_mq.Mqtt.V5.Publish
use yed_mq.Mqtt.V5.Subscribe
use yed_mq.Mqtt.V5.Suback
use yed_mq.Mqtt.V5.Unsubscribe
use yed_mq.Mqtt.V5.Unsuback
use yed_mq.Mqtt.V5.Pingreq
use yed_mq.Mqtt.V5.Pingresp
use yed_mq.Mqtt.V5.Disconnect
use yed_mq.Mqtt.V5.Auth
use yed_mq.Mqtt.V5.Ack.{
  parse_puback, parse_pubrec, parse_pubrel, parse_pubcomp, encode_puback, encode_pubrec,
  encode_pubrel, encode_pubcomp,
}

unfoldable pub parse_as : ControlPacketType → List ℕ → ℕ → Parsed Packet
parse_as ControlPacketType.connect input max_message_size = Connect.parse input max_message_size
parse_as ControlPacketType.connack input max_message_size = Connack.parse input max_message_size
parse_as ControlPacketType.publish input max_message_size = Publish.parse input max_message_size
parse_as ControlPacketType.puback input max_message_size = parse_puback input max_message_size
parse_as ControlPacketType.pubrec input max_message_size = parse_pubrec input max_message_size
parse_as ControlPacketType.pubrel input max_message_size = parse_pubrel input max_message_size
parse_as ControlPacketType.pubcomp input max_message_size = parse_pubcomp input max_message_size
parse_as ControlPacketType.subscribe input max_message_size = Subscribe.parse input max_message_size
parse_as ControlPacketType.suback input max_message_size = Suback.parse input max_message_size
parse_as ControlPacketType.unsubscribe input max_message_size =
    Unsubscribe.parse input max_message_size
parse_as ControlPacketType.unsuback input max_message_size = Unsuback.parse input max_message_size
parse_as ControlPacketType.pingreq input max_message_size = Pingreq.parse input max_message_size
parse_as ControlPacketType.pingresp input max_message_size = Pingresp.parse input max_message_size
parse_as ControlPacketType.disconnect input max_message_size =
    Disconnect.parse input max_message_size
parse_as ControlPacketType.auth input max_message_size = Auth.parse input max_message_size

unfoldable pub parse : List ℕ → ℕ → Parsed Packet
unfolding parse_as
parse input max_message_size = do
  (fixed_header, _) ← FixedHeader.parse input max_message_size
  parse_as fixed_header.packet_type input max_message_size

unfoldable pub encode : Packet → Written
encode (Packet.connect packet) = Connect.encode packet
encode (Packet.connack packet) = Connack.encode packet
encode (Packet.publish packet) = Publish.encode packet
encode (Packet.puback packet) = encode_puback packet
encode (Packet.pubrec packet) = encode_pubrec packet
encode (Packet.pubrel packet) = encode_pubrel packet
encode (Packet.pubcomp packet) = encode_pubcomp packet
encode (Packet.subscribe packet) = Subscribe.encode packet
encode (Packet.suback packet) = Suback.encode packet
encode (Packet.unsubscribe packet) = Unsubscribe.encode packet
encode (Packet.unsuback packet) = Unsuback.encode packet
encode (Packet.disconnect packet) = Disconnect.encode packet
encode (Packet.auth packet) = Auth.encode packet
encode Packet.pingreq = Pingreq.encode
encode Packet.pingresp = Pingresp.encode

-- A new buffer, encoded into.
unfoldable pub to_bytes : Packet → Written
unfolding encode
to_bytes packet = encode packet
