-- ===== src/Mqtt/V5/Suback/RoundTrip.antt =====
-- mqtt/src/v5/suback.rs: a SUBACK packet that is written is read back.
use yed_mq.Base.{
  List, arith, if◌then◌else◌, length, length-append, map, not, ok, passed, refl, through, true,
  u16_max, ℕ, ◌++◌, ◌<◌, ◌==◌, ◌^◌, ◌≡◌, ◌≤◌,
}
use yed_mq.Mqtt.Packet.{
  Packet, Properties, ReasonCode, Suback, as_u8, bad_authentication_method,
  bad_user_name_or_password, client_identifier_not_valid, continue_authentication, granted_qos0,
  granted_qos1, granted_qos2, implementation_specific_error, malformed_packet,
  no_matching_subscribers, no_subscription_existed, normal_disconnection, not_authorized,
  packet_identifier_in_use, packet_identifier_not_found, packet_too_large, payload_format_invalid,
  protocol_error, qos_not_supported, quota_exceeded, re_authenticate, retain_not_supported,
  server_unavailable, shared_subscriptions_not_supported, subscription_identifiers_not_supported,
  success, topic_filter_invalid, topic_name_invalid, unspecified_error,
  unsupported_protocol_version, v5_0, wildcard_subscriptions_not_supported,
}
use yed_mq.Mqtt.V5.Primitives.{malformed_packet, put_u16}
use yed_mq.Mqtt.V5.FixedHeader.{ControlPacketType}
use yed_mq.Mqtt.V5.ReasonCode.{decode, allowed, decode_for_packet, validate_for_packet}
use yed_mq.Mqtt.V5.ReasonCode
use yed_mq.Mqtt.V5.Properties.Identifier.{PropertyScope}
use yed_mq.Mqtt.V5.Properties.Parse.{not_zero}
use yed_mq.Mqtt.V5.Properties.Encode
use yed_mq.Mqtt.V5.Properties.Encode.{Written}
use yed_mq.Mqtt.V5.Frame.{is_empty, is_v5}
use yed_mq.Mqtt.V5.Primitives.Reading.{u16-Reads}
use yed_mq.Mqtt.V5.Properties.Encodable.{IsEncodable}
use yed_mq.Mqtt.V5.Properties.RoundTrip.{properties_back}
use yed_mq.Mqtt.V5.Frame.RoundTrip.{framed_back, is_empty-map, v5_of}
use yed_mq.Mqtt.V5.Each.{try_map, check_all, try_map-map}
use yed_mq.Mqtt.V5.Suback.{decode_suback_reason_code, encode, parse, parse_body}

-- The codes that are written as 0 are read as `GrantedQos0`.
abbrev pub as_granted : ReasonCode → ReasonCode
as_granted success = granted_qos0
as_granted normal_disconnection = granted_qos0
as_granted r = r

same_byte : (r : ReasonCode) → as_u8 (as_granted r) ≡ as_u8 r
unfolding as_u8
same_byte success = refl
same_byte normal_disconnection = refl
same_byte r = refl

low_code :
    (r : ReasonCode)
    → (if as_u8 r == 0
        then ok granted_qos0
        else if as_u8 r == 1
        then ok granted_qos1
        else if as_u8 r == 2
        then ok granted_qos2
        else decode (as_u8 r))
      ≡ ok (as_granted r)
unfolding as_u8 decode
low_code success = refl
low_code granted_qos0 = refl
low_code granted_qos1 = refl
low_code granted_qos2 = refl
low_code normal_disconnection = refl
low_code no_matching_subscribers = refl
low_code no_subscription_existed = refl
low_code continue_authentication = refl
low_code re_authenticate = refl
low_code unspecified_error = refl
low_code malformed_packet = refl
low_code protocol_error = refl
low_code implementation_specific_error = refl
low_code unsupported_protocol_version = refl
low_code client_identifier_not_valid = refl
low_code bad_user_name_or_password = refl
low_code not_authorized = refl
low_code server_unavailable = refl
low_code topic_filter_invalid = refl
low_code topic_name_invalid = refl
low_code packet_identifier_in_use = refl
low_code packet_identifier_not_found = refl
low_code packet_too_large = refl
low_code quota_exceeded = refl
low_code payload_format_invalid = refl
low_code retain_not_supported = refl
low_code qos_not_supported = refl
low_code bad_authentication_method = refl
low_code shared_subscriptions_not_supported = refl
low_code subscription_identifiers_not_supported = refl
low_code wildcard_subscriptions_not_supported = refl

code_back :
    (r : ReasonCode)
    → validate_for_packet r ControlPacketType.suback ≡ ok tt
    → decode_suback_reason_code (ReasonCode.encode r) ≡ ok (as_granted r)
unfolding decode_suback_reason_code ReasonCode.encode validate_for_packet
code_back r good = rw (low_code r, same_byte r, good) refl

body_back :
    (n : ℕ) (p : Properties) (rs : List ReasonCode) {properties : List ℕ}
    → n ≤ u16_max
    → not_zero n ≡ true
    → not (is_empty rs) ≡ true
    → check_all (λ r. validate_for_packet r ControlPacketType.suback) rs ≡ ok tt
    → IsEncodable p
    → length properties < 2 ^ 32
    → Encode.encode p PropertyScope.suback ≡ ok properties
    → parse_body (put_u16 n ++ (properties ++ map ReasonCode.encode rs))
      ≡ ok (record {
        protocol_version = v5_0;
        packet_identifier = n;
        reason_codes = map as_granted rs;
        properties = p;
      })
unfolding parse_body
body_back n p rs {properties} size pos some_code good w short e =
    let codes_back : try_map decode_suback_reason_code (map ReasonCode.encode rs)
        ≡ ok (map as_granted rs) =
      try_map-map (λ r. validate_for_packet r ControlPacketType.suback) ReasonCode.encode _
        as_granted code_back rs good in
    rw
      (
        u16-Reads n _ size (properties ++ map ReasonCode.encode rs),
        pos,
        properties_back p PropertyScope.suback (map ReasonCode.encode rs) w short e,
        is_empty-map ReasonCode.encode rs,
        some_code,
        codes_back,
      )
      refl

-- A SUBACK packet that is encoded, within the limit on the size of a packet, is read back with what
-- follows it left over, its reason codes in order, each as `GrantedQos0` where it shares that byte.
pub suback_back :
    (p : Suback) (max : ℕ) (rest : List ℕ) {bytes : List ℕ}
    → IsEncodable p.properties
    → p.packet_identifier ≤ u16_max
    → length bytes ≤ max
    → encode p ≡ ok bytes
    → parse (bytes ++ rest) max
      ≡ ok (Packet.suback (record p { reason_codes = map as_granted p.reason_codes }), rest)
unfolding encode parse
suback_back p max rest {bytes} w size fits e = passed (is_v5 p.protocol_version) _ _ e λ version e.
    passed (not_zero p.packet_identifier) _ _ e λ pos e.
      passed (not (is_empty p.reason_codes)) _ _ e λ some_code e.
        through (check_all (λ r. validate_for_packet r ControlPacketType.suback) p.reason_codes) _ e
          λ u good e.
            through (Encode.encode p.properties PropertyScope.suback) _ e λ properties written e.
              let body =
                put_u16 p.packet_identifier
                ++ (properties ++ map ReasonCode.encode p.reason_codes) in
              let frame =
                framed_back ControlPacketType.suback 0 max body rest (omega arith) fits e in
              let short : length properties < 2 ^ 32 = omega (
                arith,
                frame.short,
                length-append properties (map ReasonCode.encode p.reason_codes),
              ) in
              let back =
                body_back p.packet_identifier p.properties p.reason_codes size pos some_code good w
                  short written in
              rw (frame.head _, frame.split _, back, v5_of p.protocol_version version) refl
