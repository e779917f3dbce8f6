-- ===== src/Mqtt/V5/Codec/Dispatch.antt =====
-- mqtt/src/v5/mod.rs: the general parser runs the parser of the packet type.
use yed_mq.Base.{
  List, Text, ap, arith, ok, ok_injective, passed, sym, through, true, ℕ, ◌==◌, ◌>>=◌, ◌∙◌, ◌≡◌,
}
use yed_mq.Mqtt.Packet.{Packet}
use yed_mq.Mqtt.V5.Primitives.{Parsed}
use yed_mq.Mqtt.V5.FixedHeader
use yed_mq.Mqtt.V5.FixedHeader.{
  ControlPacketType, FixedHeader, as_u8, try_from, header_of, valid_flags,
}
use yed_mq.Mqtt.V5.FixedHeader.RoundTrip.{try_from-as_u8}
use yed_mq.Mqtt.V5.Frame.{header_for}
use yed_mq.Mqtt.V5.Connect
use yed_mq.Mqtt.V5.Connack
use yed_mq.Mqtt.V5.Publish
use yed_mq.Mqtt.V5.Subscribe
use yed_mq.Mqtt.V5.Suback
use yed_mq.Mqtt.V5.Unsubscribe
use yed_mq.Mqtt.V5.Unsuback
use yed_mq.Mqtt.V5.Pingreq
use yed_mq.Mqtt.V5.Pingresp
use yed_mq.Mqtt.V5.Disconnect
use yed_mq.Mqtt.V5.Auth
use yed_mq.Mqtt.V5.Ack
use yed_mq.Mqtt.V5.Codec.{parse, parse_as}

same_code : (a b : ControlPacketType) → (as_u8 a == as_u8 b) ≡ true → a ≡ b
same_code a b e =
    let code : as_u8 a ≡ as_u8 b = ground arith in
    ok_injective (sym (try_from-as_u8 a) ∙ ap try_from code ∙ try_from-as_u8 b)

-- A parser that starts with the header of a type.
headed :
    (t : ControlPacketType) (message : Text) (input : List ℕ) (max : ℕ)
    (f : FixedHeader × List ℕ → Parsed Packet) {r : Packet × List ℕ}
    → (header_for t message input max >>= f) ≡ ok r
    → parse_as t input max ≡ ok r
    → parse input max ≡ ok r
unfolding header_for parse
headed t message input max f e run = through (header_for t message input max) f e λ found head _.
    through (FixedHeader.parse input max) _ head λ h read head.
      passed (as_u8 (h.0).packet_type == as_u8 t) _ _ head
        λ same _. rw (read, same_code ((h.0).packet_type) t same) run

-- What the parser of a type accepts, the general parser accepts.
pub dispatch :
    (t : ControlPacketType) (input : List ℕ) (max : ℕ) {r : Packet × List ℕ}
    → parse_as t input max ≡ ok r
    → parse input max ≡ ok r
unfolding parse_as Connect.parse Connack.parse Publish.parse Subscribe.parse Suback.parse
    Unsubscribe.parse Unsuback.parse Pingreq.parse Pingresp.parse Disconnect.parse Auth.parse
    Ack.parse
dispatch ControlPacketType.connect input max e = headed ControlPacketType.connect _ input max _ e e
dispatch ControlPacketType.connack input max e = headed ControlPacketType.connack _ input max _ e e
dispatch ControlPacketType.publish input max e = headed ControlPacketType.publish _ input max _ e e
dispatch ControlPacketType.puback input max e = headed ControlPacketType.puback _ input max _ e e
dispatch ControlPacketType.pubrec input max e = headed ControlPacketType.pubrec _ input max _ e e
dispatch ControlPacketType.pubrel input max e = headed ControlPacketType.pubrel _ input max _ e e
dispatch ControlPacketType.pubcomp input max e = headed ControlPacketType.pubcomp _ input max _ e e
dispatch ControlPacketType.subscribe input max e =
    headed ControlPacketType.subscribe _ input max _ e e
dispatch ControlPacketType.suback input max e = headed ControlPacketType.suback _ input max _ e e
dispatch ControlPacketType.unsubscribe input max e =
    headed ControlPacketType.unsubscribe _ input max _ e e
dispatch ControlPacketType.unsuback input max e =
    headed ControlPacketType.unsuback _ input max _ e e
dispatch ControlPacketType.pingreq input max e = headed ControlPacketType.pingreq _ input max _ e e
dispatch ControlPacketType.pingresp input max e =
    headed ControlPacketType.pingresp _ input max _ e e
dispatch ControlPacketType.disconnect input max e =
    headed ControlPacketType.disconnect _ input max _ e e
dispatch ControlPacketType.auth input max e = headed ControlPacketType.auth _ input max _ e e
