-- ===== src/Mqtt/V5/Connack/RoundTrip.antt =====
-- mqtt/src/v5/connack.rs: a CONNACK packet that is written is read back.
use yed_mq.Base.{
  Bool, List, [], append-nil, arith, false, if◌then◌else◌, length, not, ok, passed, refl, through,
  true, ℕ, ◌&&◌, ◌++◌, ◌<◌, ◌^◌, ◌∷◌, ◌≡◌, ◌≤◌,
}
use yed_mq.Mqtt.Packet.{
  Connack, Packet, Properties, ReasonCode, as_u8, granted_qos0, normal_disconnection, v5_0,
}
use yed_mq.Mqtt.V5.FixedHeader.{ControlPacketType}
use yed_mq.Mqtt.V5.ReasonCode.{decode, allowed, decode_for_packet, validate_for_packet}
use yed_mq.Mqtt.V5.ReasonCode
use yed_mq.Mqtt.V5.Properties.Identifier.{PropertyScope}
use yed_mq.Mqtt.V5.Properties.Parse
use yed_mq.Mqtt.V5.Properties.Parse.{not_zero}
use yed_mq.Mqtt.V5.Properties.Encode
use yed_mq.Mqtt.V5.Properties.Encode.{Written}
use yed_mq.Mqtt.V5.Frame.{is_success, is_v5}
use yed_mq.Mqtt.V5.ReasonCode.RoundTrip.{as_read, decode_for_packet-encode}
use yed_mq.Mqtt.V5.Properties.Encodable.{IsEncodable}
use yed_mq.Mqtt.V5.Properties.RoundTrip.{properties_back}
use yed_mq.Mqtt.V5.Frame.RoundTrip.{framed_back, v5_of}
use yed_mq.Mqtt.V5.Connack.{encode, parse, parse_body}

present_allowed :
    (r : ReasonCode) (present : Bool)
    → not (not (is_success r) && present) ≡ true
    → not (not (is_success (as_read r)) && present) ≡ true
present_allowed granted_qos0 present e = ground arith
present_allowed normal_disconnection present e = ground arith
present_allowed r present e = e

flags_back :
    (present : Bool) (r : ReasonCode) (value : ℕ) (p : Properties) (properties : List ℕ)
    → decode_for_packet value ControlPacketType.connack ≡ ok r
    → not (not (is_success r) && present) ≡ true
    → Parse.parse properties PropertyScope.connack ≡ ok (p, [])
    → parse_body ((if present then 1 else 0) ∷ value ∷ properties)
      ≡ ok (record {
        protocol_version = v5_0;
        session_present = present;
        reason_code = r;
        properties = p;
      })
unfolding parse_body
flags_back true r value p properties code fits back = rw (code, fits, back) refl
flags_back false r value p properties code fits back = rw (code, fits, back) refl

body_back :
    (present : Bool) (r : ReasonCode) (p : Properties) {properties : List ℕ}
    → not (not (is_success r) && present) ≡ true
    → validate_for_packet r ControlPacketType.connack ≡ ok tt
    → IsEncodable p
    → length properties < 2 ^ 32
    → Encode.encode p PropertyScope.connack ≡ ok properties
    → parse_body ((if present then 1 else 0) ∷ ReasonCode.encode r ∷ properties)
      ≡ ok (record {
        protocol_version = v5_0;
        session_present = present;
        reason_code = as_read r;
        properties = p;
      })
body_back present r p {properties} fits good w short e =
    let code : decode_for_packet (ReasonCode.encode r) ControlPacketType.connack ≡ ok (as_read r) =
      rw (decode_for_packet-encode r ControlPacketType.connack, good) refl in
    let back : Parse.parse properties PropertyScope.connack ≡ ok (p, []) =
      rw (append-nil properties) at (properties_back p PropertyScope.connack [] w short e) in
    flags_back present (as_read r) (ReasonCode.encode r) p properties code
      (present_allowed r present fits) back

-- A CONNACK packet that is encoded, within the limit on the size of a packet, is read back with what
-- follows it left over, its reason code as `Success` where it shares that byte.
pub connack_back :
    (p : Connack) (max : ℕ) (rest : List ℕ) {bytes : List ℕ}
    → IsEncodable p.properties
    → length bytes ≤ max
    → encode p ≡ ok bytes
    → parse (bytes ++ rest) max
      ≡ ok (Packet.connack (record p { reason_code = as_read p.reason_code }), rest)
unfolding encode parse validate_for_packet
connack_back p max rest {bytes} w fits e = passed (is_v5 p.protocol_version) _ _ e λ version e.
    passed (not (not (is_success p.reason_code) && p.session_present)) _ _ e λ consistent e.
      passed (allowed (as_u8 p.reason_code) ControlPacketType.connack) _ _ e λ good e.
        through (Encode.encode p.properties PropertyScope.connack) _ e λ properties written e.
          let frame =
            framed_back ControlPacketType.connack 0 max
              ((if p.session_present then 1 else 0) ∷ ReasonCode.encode p.reason_code ∷ properties)
              rest (omega arith) fits e in
          let back =
            body_back p.session_present p.reason_code p.properties consistent (rw good refl) w
              (omega (arith, frame.short)) written in
          rw (frame.head _, frame.split _, back, v5_of p.protocol_version version) refl
