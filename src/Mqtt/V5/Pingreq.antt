-- ===== src/Mqtt/V5/Pingreq.antt =====
-- mqtt/src/v5/pingreq.rs: the PINGREQ packet, which has no body.
use yed_mq.Base.{List, codes, ensure, ok, ℕ, ◌==◌, ◌>>=◌, ◌>>◌}
use yed_mq.Mqtt.Packet.{Packet, malformed_packet}
use yed_mq.Mqtt.V5.Primitives.{Parsed, malformed_packet}
use yed_mq.Mqtt.V5.FixedHeader
use yed_mq.Mqtt.V5.FixedHeader.{ControlPacketType}
use yed_mq.Mqtt.V5.Properties.Encode.{Written}
use yed_mq.Mqtt.V5.Frame.{header_for}

unfoldable pub parse : List ℕ → ℕ → Parsed Packet
unfolding header_for
parse input max_message_size = do
  (fixed_header, input) ←
      header_for ControlPacketType.pingreq (codes "expected PINGREQ packet") input max_message_size
  ensure (fixed_header.remaining_length == 0)
      (malformed_packet (codes "PINGREQ remaining length must be zero"))
  ok (Packet.pingreq, input)

unfoldable pub encode : Written
encode = do
  fixed_header ← FixedHeader.new ControlPacketType.pingreq 0 0
  FixedHeader.encode fixed_header
