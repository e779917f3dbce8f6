-- ===== src/Mqtt/V5/Codec/RoundTrip.antt =====
-- mqtt/src/v5/mod.rs: a packet that is written is read back, whatever its type.
use yed_mq.Base.{
  List, Text, arith, codes, inl, inr, length, ok, ok-ne-err, ok_injective, refl, sym, through, ℕ,
  ◌++◌, ◌∙◌, ◌≡◌, ◌≤◌,
}
use yed_mq.Mqtt.Packet.{Packet}
use yed_mq.Mqtt.V5.FixedHeader
use yed_mq.Mqtt.V5.FixedHeader.{
  ControlPacketType, FixedHeader, as_u8, try_from, header_of, valid_flags,
}
use yed_mq.Mqtt.V5.FixedHeader.RoundTrip.{header_back, new_inv}
use yed_mq.Mqtt.V5.Properties.Identifier.{PropertyScope}
use yed_mq.Mqtt.V5.Frame.{header_for}
use yed_mq.Mqtt.V5.Frame.RoundTrip.{header_for_lem}
use yed_mq.Mqtt.V5.Pingreq
use yed_mq.Mqtt.V5.Pingresp
use yed_mq.Mqtt.V5.Ack.RoundTrip.{ack_back}
use yed_mq.Mqtt.V5.Auth.RoundTrip.{auth_back}
use yed_mq.Mqtt.V5.Connack.RoundTrip.{connack_back}
use yed_mq.Mqtt.V5.Connect.RoundTrip.{connect_back}
use yed_mq.Mqtt.V5.Disconnect.RoundTrip.{disconnect_back}
use yed_mq.Mqtt.V5.Publish.RoundTrip.{publish_back}
use yed_mq.Mqtt.V5.Suback.RoundTrip.{suback_back}
use yed_mq.Mqtt.V5.Unsuback.RoundTrip.{unsuback_back}
use yed_mq.Mqtt.V5.Subscribe.RoundTrip.{subscribe_back}
use yed_mq.Mqtt.V5.Unsubscribe.RoundTrip.{unsubscribe_back}
use yed_mq.Mqtt.V5.Codec.{parse, parse_as, encode}
use yed_mq.Mqtt.V5.Codec.Dispatch.{dispatch}
use yed_mq.Mqtt.V5.Codec.Received.{IsSendablePacket, Received}

module _ (max : ℕ) (rest : List ℕ) {bytes : List ℕ} (fits : length bytes ≤ max) where
  ping_head :
      (t : ControlPacketType) (message : Text) {h : FixedHeader}
      → FixedHeader.new t 0 0 ≡ ok h
      → FixedHeader.encode h ≡ ok bytes
      → header_for t message (bytes ++ rest) max ≡ ok (header_of t 0 0, rest)
  ping_head t message made e = elim (header_back t 0 0 max rest (omega arith) (omega arith) made) [
    | inl found ↦
        let same : found.0 ≡ bytes = ok_injective (sym found.1 ∙ e) in
        let shape = (new_inv t 0 0 made).1 in
        header_for_lem t message (bytes ++ rest) rest 0 0 max (rw (same, shape) at (found.5))
    | inr refused ↦ absurd (ok-ne-err (sym e ∙ refused.1))
  ]

  pingreq_back :
      Pingreq.encode ≡ ok bytes → Pingreq.parse (bytes ++ rest) max ≡ ok (Packet.pingreq, rest)
  unfolding Pingreq.encode Pingreq.parse
  pingreq_back e = through (FixedHeader.new ControlPacketType.pingreq 0 0) _ e λ h made e.
      rw (ping_head ControlPacketType.pingreq (codes "expected PINGREQ packet") made e) refl

  pingresp_back :
      Pingresp.encode ≡ ok bytes → Pingresp.parse (bytes ++ rest) max ≡ ok (Packet.pingresp, rest)
  unfolding Pingresp.encode Pingresp.parse
  pingresp_back e = through (FixedHeader.new ControlPacketType.pingresp 0 0) _ e λ h made e.
      rw (ping_head ControlPacketType.pingresp (codes "expected PINGRESP packet") made e) refl

  -- Every packet whose values can be sent and that is encoded, within the limit on the size of a packet,
  -- is read back by the general parser with what follows it left over: as the packet that the other side is to receive.
  pub packet_back :
      (p : Packet)
      → IsSendablePacket p
      → encode p ≡ ok bytes
      → (r : Packet) × Received p r × (parse (bytes ++ rest) max ≡ ok (r, rest))
  unfolding encode parse_as
  packet_back (Packet.connect p) w e =
      let (q, normal, back) = connect_back p max rest w fits e in
      (_, (q, normal, refl), dispatch ControlPacketType.connect (bytes ++ rest) max back)
  packet_back (Packet.disconnect p) w e =
      let (q, normal, back) = disconnect_back p max rest w.0 w.1 fits e in
      (_, (q, normal, refl), dispatch ControlPacketType.disconnect (bytes ++ rest) max back)
  packet_back (Packet.publish p) w e = (
    _,
    refl,
    dispatch ControlPacketType.publish (bytes ++ rest) max
        (publish_back p max rest w.0 w.1 w.2 fits e),
  )
  packet_back (Packet.puback p) w e = (
    _,
    refl,
    dispatch ControlPacketType.puback (bytes ++ rest) max (
        ack_back p ControlPacketType.puback PropertyScope.puback Packet.puback max rest w.0 w.1 fits
          e),
  )
  packet_back (Packet.pubrec p) w e = (
    _,
    refl,
    dispatch ControlPacketType.pubrec (bytes ++ rest) max (
        ack_back p ControlPacketType.pubrec PropertyScope.pubrec Packet.pubrec max rest w.0 w.1 fits
          e),
  )
  packet_back (Packet.pubrel p) w e = (
    _,
    refl,
    dispatch ControlPacketType.pubrel (bytes ++ rest) max (
        ack_back p ControlPacketType.pubrel PropertyScope.pubrel Packet.pubrel max rest w.0 w.1 fits
          e),
  )
  packet_back (Packet.pubcomp p) w e = (
    _,
    refl,
    dispatch ControlPacketType.pubcomp (bytes ++ rest) max (
        ack_back p ControlPacketType.pubcomp PropertyScope.pubcomp Packet.pubcomp max rest w.0 w.1
          fits e),
  )
  packet_back (Packet.connack p) w e = (
    _,
    refl,
    dispatch ControlPacketType.connack (bytes ++ rest) max (connack_back p max rest w fits e),
  )
  packet_back (Packet.auth p) w e =
      (_, refl, dispatch ControlPacketType.auth (bytes ++ rest) max (auth_back p max rest w fits e))
  packet_back (Packet.suback p) w e = (
    _,
    refl,
    dispatch ControlPacketType.suback (bytes ++ rest) max (suback_back p max rest w.0 w.1 fits e),
  )
  packet_back (Packet.unsuback p) w e = (
    _,
    refl,
    dispatch ControlPacketType.unsuback (bytes ++ rest) max
        (unsuback_back p max rest w.0 w.1 fits e),
  )
  packet_back (Packet.subscribe p) w e = (
    _,
    refl,
    dispatch ControlPacketType.subscribe (bytes ++ rest) max
        (subscribe_back p max rest w.0 w.1 w.2 fits e),
  )
  packet_back (Packet.unsubscribe p) w e = (
    _,
    refl,
    dispatch ControlPacketType.unsubscribe (bytes ++ rest) max
        (unsubscribe_back p max rest w.0 w.1 w.2 fits e),
  )
  packet_back Packet.pingreq w e =
      (_, refl, dispatch ControlPacketType.pingreq (bytes ++ rest) max (pingreq_back e))
  packet_back Packet.pingresp w e =
      (_, refl, dispatch ControlPacketType.pingresp (bytes ++ rest) max (pingresp_back e))
