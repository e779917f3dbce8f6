-- ===== src/Mqtt/V5/Ack/RoundTrip.antt =====
-- mqtt/src/v5/ack.rs: an acknowledgement that is written is read back.
use yed_mq.Base.{
  List, Text, arith, leb, length, ok, passed, refl, through, true, u16_max, ℕ, ◌++◌, ◌<◌, ◌^◌, ◌≡◌,
  ◌≤◌,
}
use yed_mq.Mqtt.Packet.{Ack, Packet, Properties, ReasonCode, as_u8, success, v5_0}
use yed_mq.Mqtt.V5.Primitives.{put_u16}
use yed_mq.Mqtt.V5.FixedHeader.{ControlPacketType}
use yed_mq.Mqtt.V5.ReasonCode.{decode, allowed, decode_for_packet, validate_for_packet}
use yed_mq.Mqtt.V5.Properties.Identifier.{PropertyScope}
use yed_mq.Mqtt.V5.Properties.Parse.{not_zero}
use yed_mq.Mqtt.V5.Frame.{is_success, is_v5}
use yed_mq.Mqtt.V5.Primitives.Reading.{u16-Reads}
use yed_mq.Mqtt.V5.ReasonCode.RoundTrip.{as_read, decode_for_packet-encode}
use yed_mq.Mqtt.V5.Properties.Encodable.{IsEncodable}
use yed_mq.Mqtt.V5.Frame.RoundTrip.{framed_back, success_read, v5_of}
use yed_mq.Mqtt.V5.ReasonCode
use yed_mq.Mqtt.V5.Reasoned.{write_reason}
use yed_mq.Mqtt.V5.Reasoned.RoundTrip.{reason_back}
use yed_mq.Mqtt.V5.Ack.{encode, parse, parse_body, fixed_header_flags}

flags_small : (t : ControlPacketType) → fixed_header_flags t < 16
unfolding fixed_header_flags
flags_small t = ground arith

body_back :
    (n : ℕ) (r : ReasonCode) (p : Properties) (t : ControlPacketType) (scope : PropertyScope)
    {tail : List ℕ}
    → n ≤ u16_max
    → not_zero n ≡ true
    → validate_for_packet r t ≡ ok tt
    → IsEncodable p
    → length tail < 2 ^ 32
    → write_reason scope (is_success r) r p ≡ ok tail
    → parse_body (put_u16 n ++ tail) t scope
      ≡ ok (record {
        protocol_version = v5_0;
        packet_identifier = n;
        reason_code = as_read r;
        properties = p;
      })
unfolding parse_body
body_back n r p t scope {tail} size pos good w short e =
    let code : decode_for_packet (ReasonCode.encode r) t ≡ ok (as_read r) =
      rw (decode_for_packet-encode r t, good) refl in
    let back = λ (context trailing : Text).
      reason_back (λ value. decode_for_packet value t) success scope context trailing (is_success r)
        r (as_read r) p (success_read r) code w short e in
    rw (u16-Reads n _ size tail, pos, back) refl

-- An acknowledgement that is encoded, within the limit on the size of a packet, is read back by the parser
-- for its type, with what follows it left over: with the same identifier and properties, and with the
-- same reason code, or `Success` where that shares its byte.
pub ack_back :
    (p : Ack) (t : ControlPacketType) (scope : PropertyScope) (build : Ack → Packet) (max : ℕ)
    (rest : List ℕ) {bytes : List ℕ}
    → IsEncodable p.properties
    → p.packet_identifier ≤ u16_max
    → length bytes ≤ max
    → encode p t scope ≡ ok bytes
    → parse (bytes ++ rest) max t scope build
      ≡ ok (build (record p { reason_code = as_read p.reason_code }), rest)
unfolding encode parse validate_for_packet
ack_back p t scope build max rest {bytes} w size fits e =
    passed (is_v5 p.protocol_version) _ _ e λ version e.
      passed (not_zero p.packet_identifier) _ _ e λ pos e.
        passed (allowed (as_u8 p.reason_code) t) _ _ e λ good e.
          through (write_reason scope (is_success p.reason_code) p.reason_code p.properties) _ e
            λ tail written e.
              let frame =
                framed_back t (fixed_header_flags t) max (put_u16 p.packet_identifier ++ tail) rest
                  (flags_small t) fits e in
              let room : length tail < 2 ^ 32 = omega (arith, frame.short) in
              let back =
                body_back p.packet_identifier p.reason_code p.properties t scope size pos
                  (rw good refl) w room written in
              let two : leb 2 (length (put_u16 p.packet_identifier ++ tail)) ≡ true =
                ground arith in
              rw (frame.head _, two, frame.split _, back, v5_of p.protocol_version version) refl
