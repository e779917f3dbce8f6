-- ===== src/Mqtt/V5/ReasonCode/RoundTrip.antt =====
-- mqtt/src/v5/reason_code.rs: decoding undoes encoding, but for the three codes that share a byte.
use yed_mq.Base.{arith, ok, ok_injective, passed, refl, through, ℕ, ◌>>=◌, ◌≡◌}
use yed_mq.Mqtt.Packet.{
  ReasonCode, as_u8, bad_authentication_method, bad_user_name_or_password,
  client_identifier_not_valid, continue_authentication, granted_qos0, granted_qos1, granted_qos2,
  implementation_specific_error, malformed_packet, no_matching_subscribers, no_subscription_existed,
  normal_disconnection, not_authorized, packet_identifier_in_use, packet_identifier_not_found,
  packet_too_large, payload_format_invalid, protocol_error, qos_not_supported, quota_exceeded,
  re_authenticate, retain_not_supported, server_unavailable, shared_subscriptions_not_supported,
  subscription_identifiers_not_supported, success, topic_filter_invalid, topic_name_invalid,
  unspecified_error, unsupported_protocol_version, wildcard_subscriptions_not_supported,
}
use yed_mq.Mqtt.V5.FixedHeader.{ControlPacketType}
use yed_mq.Mqtt.V5.ReasonCode.{decode, encode, allowed, validate_for_packet, decode_for_packet}

-- `GrantedQos0` and `NormalDisconnection` are written as the byte of `Success`.
abbrev pub as_read : ReasonCode → ReasonCode
as_read granted_qos0 = success
as_read normal_disconnection = success
as_read reason_code = reason_code

pub decode-encode : (r : ReasonCode) → decode (encode r) ≡ ok (as_read r)
unfolding decode encode as_u8
decode-encode success = refl
decode-encode granted_qos0 = refl
decode-encode granted_qos1 = refl
decode-encode granted_qos2 = refl
decode-encode normal_disconnection = refl
decode-encode no_matching_subscribers = refl
decode-encode no_subscription_existed = refl
decode-encode continue_authentication = refl
decode-encode re_authenticate = refl
decode-encode unspecified_error = refl
decode-encode malformed_packet = refl
decode-encode protocol_error = refl
decode-encode implementation_specific_error = refl
decode-encode unsupported_protocol_version = refl
decode-encode client_identifier_not_valid = refl
decode-encode bad_user_name_or_password = refl
decode-encode not_authorized = refl
decode-encode server_unavailable = refl
decode-encode topic_filter_invalid = refl
decode-encode topic_name_invalid = refl
decode-encode packet_identifier_in_use = refl
decode-encode packet_identifier_not_found = refl
decode-encode packet_too_large = refl
decode-encode quota_exceeded = refl
decode-encode payload_format_invalid = refl
decode-encode retain_not_supported = refl
decode-encode qos_not_supported = refl
decode-encode bad_authentication_method = refl
decode-encode shared_subscriptions_not_supported = refl
decode-encode subscription_identifiers_not_supported = refl
decode-encode wildcard_subscriptions_not_supported = refl

pub as_u8-as_read : (r : ReasonCode) → as_u8 (as_read r) ≡ as_u8 r
unfolding as_u8
as_u8-as_read success = refl
as_u8-as_read granted_qos0 = refl
as_u8-as_read granted_qos1 = refl
as_u8-as_read granted_qos2 = refl
as_u8-as_read normal_disconnection = refl
as_u8-as_read no_matching_subscribers = refl
as_u8-as_read no_subscription_existed = refl
as_u8-as_read continue_authentication = refl
as_u8-as_read re_authenticate = refl
as_u8-as_read unspecified_error = refl
as_u8-as_read malformed_packet = refl
as_u8-as_read protocol_error = refl
as_u8-as_read implementation_specific_error = refl
as_u8-as_read unsupported_protocol_version = refl
as_u8-as_read client_identifier_not_valid = refl
as_u8-as_read bad_user_name_or_password = refl
as_u8-as_read not_authorized = refl
as_u8-as_read server_unavailable = refl
as_u8-as_read topic_filter_invalid = refl
as_u8-as_read topic_name_invalid = refl
as_u8-as_read packet_identifier_in_use = refl
as_u8-as_read packet_identifier_not_found = refl
as_u8-as_read packet_too_large = refl
as_u8-as_read quota_exceeded = refl
as_u8-as_read payload_format_invalid = refl
as_u8-as_read retain_not_supported = refl
as_u8-as_read qos_not_supported = refl
as_u8-as_read bad_authentication_method = refl
as_u8-as_read shared_subscriptions_not_supported = refl
as_u8-as_read subscription_identifiers_not_supported = refl
as_u8-as_read wildcard_subscriptions_not_supported = refl

-- A code that a packet may carry is read back from its byte, as `Success` where it shares that byte; a
-- code that it may not carry is refused from the byte too, with the same error.
pub decode_for_packet-encode :
    (r : ReasonCode) (t : ControlPacketType)
    → decode_for_packet (encode r) t ≡ (validate_for_packet r t >>= λ _. ok (as_read r))
unfolding decode_for_packet validate_for_packet
decode_for_packet-encode r t = rw (decode-encode r, as_u8-as_read r) refl

encode-decode : (value : ℕ) {r : ReasonCode} → decode value ≡ ok r → encode r ≡ value
unfolding decode encode as_u8
encode-decode value e = ground arith

-- A byte that is read as a code of a packet is the byte which that code is written as, and the packet may
-- carry the code.
pub encode-decode_for_packet :
    (value : ℕ) (t : ControlPacketType) {r : ReasonCode}
    → decode_for_packet value t ≡ ok r
    → (encode r ≡ value) × (validate_for_packet r t ≡ ok tt)
unfolding decode_for_packet validate_for_packet
encode-decode_for_packet value t e = through (decode value) _ e λ r decoded e.
    passed (allowed (as_u8 r) t) _ _ e
      λ fits e. rw (← ok_injective e) (encode-decode value decoded, rw fits refl)
