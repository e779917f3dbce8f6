-- ===== src/Mqtt/V5/ReasonCode.antt =====
-- mqtt/src/v5/reason_code.rs: the reason codes that a packet may carry.
pub mod RoundTrip
use yed_mq.Base.{
  Bool, List, Result, [], ensure, err, false, if◌then◌else◌, leb, ok, true, ℕ, ◌&&◌, ◌==◌, ◌>>=◌,
  ◌>>◌, ◌||◌, ◌∷◌,
}
use yed_mq.Mqtt.Packet.{
  ReasonCode, as_u8, auth, bad_authentication_method, bad_user_name_or_password,
  client_identifier_not_valid, connack, continue_authentication, disconnect, granted_qos1,
  granted_qos2, implementation_specific_error, malformed_packet, no_matching_subscribers,
  no_subscription_existed, not_authorized, packet_identifier_in_use, packet_identifier_not_found,
  packet_too_large, payload_format_invalid, protocol_error, puback, pubcomp, pubrec, pubrel,
  qos_not_supported, quota_exceeded, re_authenticate, retain_not_supported, server_unavailable,
  shared_subscriptions_not_supported, suback, subscription_identifiers_not_supported, success,
  topic_filter_invalid, topic_name_invalid, unspecified_error, unsuback,
  unsupported_protocol_version, wildcard_subscriptions_not_supported,
}
use yed_mq.Mqtt.V5.Primitives.{Mqtt5ParseError, unknown_reason_code, reason_code_not_allowed}
use yed_mq.Mqtt.V5.FixedHeader.{
  ControlPacketType, name, connect, connack, publish, puback, pubrec, pubrel, pubcomp, subscribe,
  suback, unsubscribe, unsuback, pingreq, pingresp, disconnect, auth,
}

unfoldable pub decode : ℕ → Result Mqtt5ParseError ReasonCode
decode value =
    if value == 0x00
    then ok success
    else if value == 0x01
    then ok granted_qos1
    else if value == 0x02
    then ok granted_qos2
    else if value == 0x10
    then ok no_matching_subscribers
    else if value == 0x11
    then ok no_subscription_existed
    else if value == 0x18
    then ok continue_authentication
    else if value == 0x19
    then ok re_authenticate
    else if value == 0x80
    then ok unspecified_error
    else if value == 0x81
    then ok malformed_packet
    else if value == 0x82
    then ok protocol_error
    else if value == 0x83
    then ok implementation_specific_error
    else if value == 0x84
    then ok unsupported_protocol_version
    else if value == 0x85
    then ok client_identifier_not_valid
    else if value == 0x86
    then ok bad_user_name_or_password
    else if value == 0x87
    then ok not_authorized
    else if value == 0x88
    then ok server_unavailable
    else if value == 0x8c
    then ok bad_authentication_method
    else if value == 0x8f
    then ok topic_filter_invalid
    else if value == 0x90
    then ok topic_name_invalid
    else if value == 0x91
    then ok packet_identifier_in_use
    else if value == 0x92
    then ok packet_identifier_not_found
    else if value == 0x95
    then ok packet_too_large
    else if value == 0x97
    then ok quota_exceeded
    else if value == 0x99
    then ok payload_format_invalid
    else if value == 0x9a
    then ok retain_not_supported
    else if value == 0x9b
    then ok qos_not_supported
    else if value == 0x9e
    then ok shared_subscriptions_not_supported
    else if value == 0xa1
    then ok subscription_identifiers_not_supported
    else if value == 0xa2
    then ok wildcard_subscriptions_not_supported
    else err (unknown_reason_code value)

abbrev one_of : ℕ → List ℕ → Bool
one_of value [] = false
one_of value (v ∷ vs) = value == v || one_of value vs

abbrev between : ℕ → ℕ → ℕ → Bool
between low high value = leb low value && leb value high

unfoldable pub allowed : ℕ → ControlPacketType → Bool
allowed value connack =
    one_of value (0x00 ∷ 0x8c ∷ 0x90 ∷ 0x95 ∷ 0x97 ∷ [])
    || between 0x80 0x88 value
    || between 0x99 0x9b value
allowed value puback =
    one_of value (0x00 ∷ 0x10 ∷ 0x80 ∷ 0x83 ∷ 0x87 ∷ 0x90 ∷ 0x91 ∷ 0x97 ∷ 0x99 ∷ [])
allowed value pubrec =
    one_of value (0x00 ∷ 0x10 ∷ 0x80 ∷ 0x83 ∷ 0x87 ∷ 0x90 ∷ 0x91 ∷ 0x97 ∷ 0x99 ∷ [])
allowed value pubrel = one_of value (0x00 ∷ 0x92 ∷ [])
allowed value pubcomp = one_of value (0x00 ∷ 0x92 ∷ [])
allowed value suback =
    between 0x00 0x02 value
    || one_of value (0x80 ∷ 0x83 ∷ 0x87 ∷ 0x8f ∷ 0x91 ∷ 0x97 ∷ 0x9e ∷ 0xa1 ∷ 0xa2 ∷ [])
allowed value unsuback = one_of value (0x00 ∷ 0x11 ∷ 0x80 ∷ 0x83 ∷ 0x87 ∷ 0x8f ∷ 0x91 ∷ [])
allowed value disconnect =
    one_of value (0x00 ∷ 0x87 ∷ 0x8c ∷ 0x8f ∷ 0x90 ∷ 0x95 ∷ 0x97 ∷ 0x9e ∷ 0xa1 ∷ 0xa2 ∷ [])
    || between 0x80 0x83 value
    || between 0x99 0x9b value
allowed value auth = one_of value (0x00 ∷ 0x18 ∷ 0x19 ∷ [])
allowed value _ = true

unfoldable pub validate_for_packet :
    ReasonCode → ControlPacketType → Result Mqtt5ParseError (Unit {0})
validate_for_packet reason_code packet_type =
    ensure (allowed (as_u8 reason_code) packet_type)
      (reason_code_not_allowed (as_u8 reason_code) (name packet_type))

unfoldable pub decode_for_packet : ℕ → ControlPacketType → Result Mqtt5ParseError ReasonCode
unfolding validate_for_packet
decode_for_packet value packet_type = do
  reason_code ← decode value
  validate_for_packet reason_code packet_type
  ok reason_code

unfoldable pub encode : ReasonCode → ℕ
encode reason_code = as_u8 reason_code
