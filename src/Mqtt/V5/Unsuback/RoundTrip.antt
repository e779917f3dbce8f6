-- ===== src/Mqtt/V5/Unsuback/RoundTrip.antt =====
-- mqtt/src/v5/unsuback.rs: a UNSUBACK packet that is written is read back.
use yed_mq.Base.{
  List, arith, length, length-append, map, not, ok, passed, refl, through, true, u16_max, ℕ, ◌++◌,
  ◌<◌, ◌^◌, ◌≡◌, ◌≤◌,
}
use yed_mq.Mqtt.Packet.{Packet, Properties, ReasonCode, Unsuback, v5_0}
use yed_mq.Mqtt.V5.Primitives.{put_u16}
use yed_mq.Mqtt.V5.FixedHeader.{ControlPacketType}
use yed_mq.Mqtt.V5.ReasonCode.{decode, allowed, decode_for_packet, validate_for_packet}
use yed_mq.Mqtt.V5.ReasonCode
use yed_mq.Mqtt.V5.Properties.Identifier.{PropertyScope}
use yed_mq.Mqtt.V5.Properties.Parse.{not_zero}
use yed_mq.Mqtt.V5.Properties.Encode
use yed_mq.Mqtt.V5.Properties.Encode.{Written}
use yed_mq.Mqtt.V5.Frame.{is_empty, is_v5}
use yed_mq.Mqtt.V5.Primitives.Reading.{u16-Reads}
use yed_mq.Mqtt.V5.ReasonCode.RoundTrip.{as_read, decode_for_packet-encode}
use yed_mq.Mqtt.V5.Properties.Encodable.{IsEncodable}
use yed_mq.Mqtt.V5.Properties.RoundTrip.{properties_back}
use yed_mq.Mqtt.V5.Frame.RoundTrip.{framed_back, is_empty-map, v5_of}
use yed_mq.Mqtt.V5.Each.{try_map, check_all, try_map-map}
use yed_mq.Mqtt.V5.Unsuback.{encode, parse, parse_body}

code_back :
    (r : ReasonCode)
    → validate_for_packet r ControlPacketType.unsuback ≡ ok tt
    → decode_for_packet (ReasonCode.encode r) ControlPacketType.unsuback ≡ ok (as_read r)
code_back r good = rw (decode_for_packet-encode r ControlPacketType.unsuback, good) refl

body_back :
    (n : ℕ) (p : Properties) (rs : List ReasonCode) {properties : List ℕ}
    → n ≤ u16_max
    → not_zero n ≡ true
    → not (is_empty rs) ≡ true
    → check_all (λ r. validate_for_packet r ControlPacketType.unsuback) rs ≡ ok tt
    → IsEncodable p
    → length properties < 2 ^ 32
    → Encode.encode p PropertyScope.unsuback ≡ ok properties
    → parse_body (put_u16 n ++ (properties ++ map ReasonCode.encode rs))
      ≡ ok (record {
        protocol_version = v5_0;
        packet_identifier = n;
        reason_codes = map as_read rs;
        properties = p;
      })
unfolding parse_body
body_back n p rs {properties} size pos some_code good w short e =
    let codes_back : try_map (λ value. decode_for_packet value ControlPacketType.unsuback)
          (map ReasonCode.encode rs)
        ≡ ok (map as_read rs) =
      try_map-map (λ r. validate_for_packet r ControlPacketType.unsuback) ReasonCode.encode _
        as_read code_back rs good in
    rw
      (
        u16-Reads n _ size (properties ++ map ReasonCode.encode rs),
        pos,
        properties_back p PropertyScope.unsuback (map ReasonCode.encode rs) w short e,
        is_empty-map ReasonCode.encode rs,
        some_code,
        codes_back,
      )
      refl

-- An UNSUBACK packet that is encoded, within the limit on the size of a packet, is read back with what
-- follows it left over, its reason codes in order, each as `Success` where it shares that byte.
pub unsuback_back :
    (p : Unsuback) (max : ℕ) (rest : List ℕ) {bytes : List ℕ}
    → IsEncodable p.properties
    → p.packet_identifier ≤ u16_max
    → length bytes ≤ max
    → encode p ≡ ok bytes
    → parse (bytes ++ rest) max
      ≡ ok (Packet.unsuback (record p { reason_codes = map as_read p.reason_codes }), rest)
unfolding encode parse
unsuback_back p max rest {bytes} w size fits e =
    passed (is_v5 p.protocol_version) _ _ e λ version e.
      passed (not_zero p.packet_identifier) _ _ e λ pos e.
        passed (not (is_empty p.reason_codes)) _ _ e λ some_code e.
          through (check_all (λ r. validate_for_packet r ControlPacketType.unsuback) p.reason_codes)
            _ e
            λ u good e.
              through (Encode.encode p.properties PropertyScope.unsuback) _ e
                λ properties written e.
                  let body =
                    put_u16 p.packet_identifier
                    ++ (properties ++ map ReasonCode.encode p.reason_codes) in
                  let frame =
                    framed_back ControlPacketType.unsuback 0 max body rest (omega arith) fits e in
                  let short : length properties < 2 ^ 32 = omega (
                    arith,
                    frame.short,
                    length-append properties (map ReasonCode.encode p.reason_codes),
                  ) in
                  let back =
                    body_back p.packet_identifier p.properties p.reason_codes size pos some_code
                      good w short written in
                  rw (frame.head _, frame.split _, back, v5_of p.protocol_version version) refl
