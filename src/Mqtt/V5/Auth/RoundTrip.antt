-- ===== src/Mqtt/V5/Auth/RoundTrip.antt =====
-- mqtt/src/v5/auth.rs: an AUTH packet that is written is read back.
use yed_mq.Base.{List, Text, arith, length, ok, passed, refl, through, ℕ, ◌++◌, ◌<◌, ◌^◌, ◌≡◌, ◌≤◌}
use yed_mq.Mqtt.Packet.{Auth, Packet, Properties, ReasonCode, as_u8, success}
use yed_mq.Mqtt.V5.FixedHeader.{ControlPacketType}
use yed_mq.Mqtt.V5.ReasonCode.{decode, allowed, decode_for_packet, validate_for_packet}
use yed_mq.Mqtt.V5.ReasonCode
use yed_mq.Mqtt.V5.Properties.Identifier.{PropertyScope}
use yed_mq.Mqtt.V5.Frame.{is_success}
use yed_mq.Mqtt.V5.ReasonCode.RoundTrip.{as_read, decode_for_packet-encode}
use yed_mq.Mqtt.V5.Properties.Encodable.{IsEncodable}
use yed_mq.Mqtt.V5.Frame.RoundTrip.{framed_back, success_read}
use yed_mq.Mqtt.V5.Reasoned.{write_reason}
use yed_mq.Mqtt.V5.Reasoned.RoundTrip.{reason_back}
use yed_mq.Mqtt.V5.Auth.{encode, parse, parse_body}

body_back :
    (r : ReasonCode) (p : Properties) {body : List ℕ}
    → validate_for_packet r ControlPacketType.auth ≡ ok tt
    → IsEncodable p
    → length body < 2 ^ 32
    → write_reason PropertyScope.auth (is_success r) r p ≡ ok body
    → parse_body body ≡ ok (record { reason_code = as_read r; properties = p })
unfolding parse_body
body_back r p {body} good w short e =
    let code : decode_for_packet (ReasonCode.encode r) ControlPacketType.auth ≡ ok (as_read r) =
      rw (decode_for_packet-encode r ControlPacketType.auth, good) refl in
    let back = λ (context trailing : Text).
      reason_back (λ value. decode_for_packet value ControlPacketType.auth) success
        PropertyScope.auth context trailing (is_success r) r (as_read r) p (success_read r) code w
        short e in
    rw back refl

-- An AUTH packet that is encoded, within the limit on the size of a packet, is read back with what
-- follows it left over, its reason code as `Success` where it shares that byte.
pub auth_back :
    (p : Auth) (max : ℕ) (rest : List ℕ) {bytes : List ℕ}
    → IsEncodable p.properties
    → length bytes ≤ max
    → encode p ≡ ok bytes
    → parse (bytes ++ rest) max
      ≡ ok (Packet.auth (record p { reason_code = as_read p.reason_code }), rest)
unfolding encode parse validate_for_packet
auth_back p max rest {bytes} w fits e =
    passed (allowed (as_u8 p.reason_code) ControlPacketType.auth) _ _ e λ good e.
      through
        (write_reason PropertyScope.auth (is_success p.reason_code) p.reason_code p.properties) _ e
        λ body written e.
          let frame = framed_back ControlPacketType.auth 0 max body rest (omega arith) fits e in
          let back =
            body_back p.reason_code p.properties (rw good refl) w (omega (arith, frame.short))
              written in
          rw (frame.head _, frame.split _, back) refl
