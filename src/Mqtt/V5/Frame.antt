-- ===== src/Mqtt/V5/Frame.antt =====
-- mqtt/src/v5: what the files of the packets share. Each `parse` starts with the fixed header, the check of
-- the packet type and the split at the remaining length; each `encode` ends with the fixed header before
-- the body.
pub mod RoundTrip
use yed_mq.Base.{
  Bool, List, Option, Text, [], drop, ensure, false, leb, length, none, ok, some, take, true,
  u32_max, ℕ, ◌%◌, ◌&&◌, ◌++◌, ◌==◌, ◌>>=◌, ◌>>◌, ◌^◌, ◌∷◌,
}
use yed_mq.Mqtt.Packet.{ProtocolVersion, v3_1_1, v5_0, ReasonCode, success, Properties}
use yed_mq.Mqtt.V5.Primitives.{
  Parsed, incomplete, malformed_packet, variable_byte_integer_too_large,
}
use yed_mq.Mqtt.V5.FixedHeader
use yed_mq.Mqtt.V5.FixedHeader.{ControlPacketType, FixedHeader, as_u8}
use yed_mq.Mqtt.V5.Properties.Encode.{Written}

unfoldable pub header_for : ControlPacketType → Text → List ℕ → ℕ → Parsed FixedHeader
header_for expected message input max_message_size = do
  (fixed_header, input) ← FixedHeader.parse input max_message_size
  ensure (as_u8 fixed_header.packet_type == as_u8 expected) (malformed_packet message)
  ok (fixed_header, input)

-- The body, and what follows it.
unfoldable pub split_body : Text → FixedHeader → List ℕ → Parsed (List ℕ)
split_body context fixed_header input = do
  ensure (leb fixed_header.remaining_length (length input)) (incomplete context)
  ok (take fixed_header.remaining_length input, drop fixed_header.remaining_length input)

unfoldable pub framed : ControlPacketType → ℕ → List ℕ → Written
framed packet_type flags body = do
  ensure (leb (length body) u32_max) (variable_byte_integer_too_large (length body % 2 ^ 32))
  fixed_header ← FixedHeader.new packet_type flags (length body)
  header ← FixedHeader.encode fixed_header
  ok (header ++ body)

abbrev pub is_v5 : ProtocolVersion → Bool
is_v5 v5_0 = true
is_v5 v3_1_1 = false

abbrev pub is_success : ReasonCode → Bool
is_success success = true
is_success _ = false

abbrev pub is_none : {A : Type 0} → Option A → Bool
is_none none = true
is_none (some x) = false

abbrev pub is_empty : {A : Type 0} → List A → Bool
is_empty [] = true
is_empty (x ∷ xs) = false

-- `properties == Properties::default()`
unfoldable pub is_default : Properties → Bool
is_default p =
    is_none p.payload_format_indicator
    && (is_none p.message_expiry_interval
        && (is_none p.content_type
            && (is_none p.response_topic
                && (is_none p.correlation_data
                    && (is_empty p.subscription_identifiers
                        && (is_none p.session_expiry_interval
                            && (is_none p.assigned_client_identifier
                                && (is_none p.server_keep_alive
                                    && (is_none p.authentication_method
                                        && (is_none p.authentication_data
                                            && (is_none p.request_problem_information
                                                && (is_none p.will_delay_interval
                                                    && (is_none p.request_response_information
                                                        && (is_none p.response_information
                                                            && (is_none p.server_reference
                                                            && (is_none p.reason_string
                                                            && (is_none p.receive_maximum
                                                            && (is_none p.topic_alias_maximum
                                                            && (is_none p.topic_alias
                                                            && (is_none p.maximum_qos
                                                            && (is_none p.retain_available
                                                            && (is_empty p.user_properties
                                                            && (is_none p.maximum_packet_size
                                                            && (is_none
                                                            p.wildcard_subscription_available
                                                            && (is_none
                                                            p.subscription_identifier_available
                                                            && (is_none
                                                            p.shared_subscription_available))))))))))))))))))))))))))
