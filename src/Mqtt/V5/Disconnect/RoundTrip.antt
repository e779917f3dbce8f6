-- ===== src/Mqtt/V5/Disconnect/RoundTrip.antt =====
-- mqtt/src/v5/disconnect.rs: a DISCONNECT packet that is written is read back.
use yed_mq.Base.{
  Bool-cases, List, Text, arith, false, inl, inr, length, ok, passed, refl, through, true, u32_max,
  ℕ, ◌++◌, ◌<◌, ◌==◌, ◌^◌, ◌≡◌, ◌≤◌,
}
use yed_mq.Mqtt.Packet.{
  Disconnect, Packet, Properties, ReasonCode, as_u8, granted_qos0, normal_disconnection, success,
  v5_0,
}
use yed_mq.Mqtt.V5.FixedHeader.{ControlPacketType}
use yed_mq.Mqtt.V5.ReasonCode.{decode, allowed, decode_for_packet, validate_for_packet}
use yed_mq.Mqtt.V5.ReasonCode
use yed_mq.Mqtt.V5.Properties.Identifier.{PropertyScope}
use yed_mq.Mqtt.V5.Frame.{is_v5}
use yed_mq.Mqtt.V5.ReasonCode.RoundTrip.{as_read, as_u8-as_read, decode-encode}
use yed_mq.Mqtt.V5.Properties.Rounds.{IfSome}
use yed_mq.Mqtt.V5.Properties.Encodable.{IsEncodable}
use yed_mq.Mqtt.V5.Frame.RoundTrip.{framed_back, v5_of}
use yed_mq.Mqtt.V5.Normalized.Fits.{normalized-IsEncodable}
use yed_mq.Mqtt.V5.Reasoned.{write_reason}
use yed_mq.Mqtt.V5.Reasoned.RoundTrip.{reason_back}
use yed_mq.Mqtt.V5.Disconnect.{
  encode, parse, parse_body, decode_disconnect_reason_code, is_normal,
  normalized_disconnect_properties,
}

-- The codes that are written as 0 are read as `NormalDisconnection`.
abbrev pub as_disconnect : ReasonCode → ReasonCode
as_disconnect success = normal_disconnection
as_disconnect granted_qos0 = normal_disconnection
as_disconnect r = r

zero_code : (r : ReasonCode) → (as_u8 r == 0) ≡ true → as_disconnect r ≡ normal_disconnection
unfolding as_u8
zero_code success e = refl
zero_code granted_qos0 e = refl
zero_code normal_disconnection e = refl
zero_code r e = absurd (ground arith)

other_code : (r : ReasonCode) → (as_u8 r == 0) ≡ false → as_read r ≡ as_disconnect r
unfolding as_u8
other_code success e = absurd (ground arith)
other_code granted_qos0 e = absurd (ground arith)
other_code normal_disconnection e = absurd (ground arith)
other_code r e = refl

normal_code : (r : ReasonCode) → is_normal r ≡ true → as_disconnect r ≡ normal_disconnection
normal_code normal_disconnection e = refl
normal_code r e = cc

code_back :
    (r : ReasonCode)
    → allowed (as_u8 r) ControlPacketType.disconnect ≡ true
    → decode_disconnect_reason_code (ReasonCode.encode r) ≡ ok (as_disconnect r)
unfolding decode_disconnect_reason_code ReasonCode.encode allowed as_u8
code_back r good = elim (Bool-cases (as_u8 r == 0)) [
  | inl null ↦ rw (null, zero_code r null) refl
  | inr other ↦
      let back = decode-encode r in rw (other, back, as_u8-as_read r, good, other_code r other) refl
]

body_back :
    (r : ReasonCode) (p : Properties) {body : List ℕ}
    → allowed (as_u8 r) ControlPacketType.disconnect ≡ true
    → IsEncodable p
    → length body < 2 ^ 32
    → write_reason PropertyScope.disconnect (is_normal r) r p ≡ ok body
    → parse_body body
      ≡ ok (record {
        protocol_version = v5_0;
        reason_code = as_disconnect r;
        session_expiry_interval = p.session_expiry_interval;
        properties = p;
      })
unfolding parse_body
body_back r p {body} good w short e =
    let back = λ (context trailing : Text).
      reason_back decode_disconnect_reason_code normal_disconnection PropertyScope.disconnect
        context trailing (is_normal r) r (as_disconnect r) p (normal_code r) (code_back r good) w
        short e in
    rw back refl

-- A DISCONNECT packet that is encoded, within the limit on the size of a packet, is read back with what
-- follows it left over: its properties with the session expiry interval of the packet added, that of
-- the properties as its own, and its reason code as `NormalDisconnection` where it shares that byte.
pub disconnect_back :
    (p : Disconnect) (max : ℕ) (rest : List ℕ) {bytes : List ℕ}
    → IfSome (λ n. n ≤ u32_max) p.session_expiry_interval
    → IsEncodable p.properties
    → length bytes ≤ max
    → encode p ≡ ok bytes
    → (q : Properties) × (normalized_disconnect_properties p ≡ ok q)
      × (parse (bytes ++ rest) max
          ≡ ok (
            Packet.disconnect (record p {
              reason_code = as_disconnect p.reason_code;
              session_expiry_interval = q.session_expiry_interval;
              properties = q;
            }),
            rest,
          ))
unfolding encode parse validate_for_packet normalized_disconnect_properties
disconnect_back p max rest {bytes} h w fits e = passed (is_v5 p.protocol_version) _ _ e λ version e.
    passed (allowed (as_u8 p.reason_code) ControlPacketType.disconnect) _ _ e λ good e.
      through (normalized_disconnect_properties p) _ e λ q normal e.
        through (write_reason PropertyScope.disconnect (is_normal p.reason_code) p.reason_code q) _
          e
          λ body written e.
            let frame =
              framed_back ControlPacketType.disconnect 0 max body rest (omega arith) fits e in
            let w' = normalized-IsEncodable _ p.session_expiry_interval p.properties h w normal in
            let back = body_back p.reason_code q good w' (omega (arith, frame.short)) written in
            (
              q,
              normal,
              rw (frame.head _, frame.split _, back, v5_of p.protocol_version version) refl,
            )
