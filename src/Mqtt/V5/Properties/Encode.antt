-- ===== src/Mqtt/V5/Properties/Encode.antt =====
-- mqtt/src/v5/properties.rs: writing the properties of a packet.
use yed_mq.Base.{
  Bool, List, Option, Result, Text, [], ensure, if◌then◌else◌, length, map, none, ok, some, true, ℕ,
  ◌%◌, ◌++◌, ◌>>=◌, ◌>>◌, ◌^◌, ◌∷◌,
}
use yed_mq.Mqtt.Packet.{Properties}
use yed_mq.Mqtt.V5.Primitives.{
  Mqtt5ParseError, encode_binary, encode_utf8_string, encode_variable_byte_integer,
  invalid_property_value, put_u16, put_u32,
}
use yed_mq.Mqtt.V5.Properties.Identifier.{
  PropertyScope, PropertyIdentifier, as_u32, name, payload_format_indicator,
  message_expiry_interval, content_type, response_topic, correlation_data, subscription_identifier,
  session_expiry_interval, assigned_client_identifier, server_keep_alive, authentication_method,
  authentication_data, request_problem_information, will_delay_interval,
  request_response_information, response_information, server_reference, reason_string,
  receive_maximum, topic_alias_maximum, topic_alias, maximum_qos, retain_available, user_property,
  maximum_packet_size, wildcard_subscription_available, subscription_identifier_available,
  shared_subscription_available,
}
use yed_mq.Mqtt.V5.Properties.Parse.{ensure_allowed, at_most_one, not_zero}

abbrev pub Written : Type 0
Written = Result Mqtt5ParseError (List ℕ)

-- Calls with `?` that write to one buffer, one after the other.
unfoldable pub write_all : List Written → Written
write_all [] = ok []
write_all (m ∷ ms) = do bytes ← m; more ← write_all ms; ok (bytes ++ more)

unfoldable pub write_property_id : PropertyScope → PropertyIdentifier → Written
unfolding ensure_allowed
write_property_id scope identifier = do
  ensure_allowed identifier scope
  encode_variable_byte_integer (as_u32 identifier)

-- The shape of `encode_optional_u8` and of the functions beside it.
unfoldable pub encode_optional :
    {A : Type 0} → (A → Written) → PropertyScope → PropertyIdentifier → Option A → Written
unfolding write_property_id
encode_optional write scope identifier none = ok []
encode_optional write scope identifier (some value) = do
  bytes ← write_property_id scope identifier
  more ← write value
  ok (bytes ++ more)

abbrev pub encode_optional_u8 : PropertyScope → PropertyIdentifier → Option ℕ → Written
encode_optional_u8 = encode_optional (λ value. ok (value ∷ []))

abbrev pub encode_optional_u16 : PropertyScope → PropertyIdentifier → Option ℕ → Written
encode_optional_u16 = encode_optional (λ value. ok (put_u16 value))

abbrev pub encode_optional_u32 : PropertyScope → PropertyIdentifier → Option ℕ → Written
encode_optional_u32 = encode_optional (λ value. ok (put_u32 value))

abbrev pub encode_optional_bool : PropertyScope → PropertyIdentifier → Option Bool → Written
encode_optional_bool = encode_optional (λ value. ok ((if value then 1 else 0) ∷ []))

abbrev pub encode_optional_string : PropertyScope → PropertyIdentifier → Option Text → Written
encode_optional_string = encode_optional encode_utf8_string

abbrev pub encode_optional_binary : PropertyScope → PropertyIdentifier → Option (List ℕ) → Written
encode_optional_binary = encode_optional encode_binary

-- `if let Some(0) = value`
abbrev pub holds : (ℕ → Bool) → Option ℕ → Bool
holds test none = true
holds test (some value) = test value

abbrev pub encode_optional_nonzero_u16 : PropertyScope → PropertyIdentifier → Option ℕ → Written
encode_optional_nonzero_u16 scope identifier value =
    ensure (holds not_zero value) (invalid_property_value (name identifier))
    >> encode_optional_u16 scope identifier value

abbrev pub encode_optional_nonzero_u32 : PropertyScope → PropertyIdentifier → Option ℕ → Written
encode_optional_nonzero_u32 scope identifier value =
    ensure (holds not_zero value) (invalid_property_value (name identifier))
    >> encode_optional_u32 scope identifier value

abbrev pub encode_maximum_qos : PropertyScope → Option ℕ → Written
encode_maximum_qos scope value =
    ensure (holds at_most_one value) (invalid_property_value (name maximum_qos))
    >> encode_optional_u8 scope maximum_qos value

unfoldable pub encode_subscription_identifier : PropertyScope → ℕ → Written
unfolding write_property_id
encode_subscription_identifier scope value = do
  ensure (not_zero value) (invalid_property_value (name subscription_identifier))
  bytes ← write_property_id scope subscription_identifier
  more ← encode_variable_byte_integer value
  ok (bytes ++ more)

unfoldable pub encode_user_property : PropertyScope → Text × Text → Written
unfolding write_property_id
encode_user_property scope (key, value) = do
  bytes ← write_property_id scope user_property
  key ← encode_utf8_string key
  value ← encode_utf8_string value
  ok (bytes ++ (key ++ value))

abbrev pub body_parts : Properties → PropertyScope → List Written
body_parts p scope =
    encode_optional_u8 scope payload_format_indicator p.payload_format_indicator
    ∷ encode_optional_u32 scope message_expiry_interval p.message_expiry_interval
    ∷ encode_optional_string scope content_type p.content_type
    ∷ encode_optional_string scope response_topic p.response_topic
    ∷ encode_optional_binary scope correlation_data p.correlation_data
    ∷ write_all (map (encode_subscription_identifier scope) p.subscription_identifiers)
    ∷ encode_optional_u32 scope session_expiry_interval p.session_expiry_interval
    ∷ encode_optional_string scope assigned_client_identifier p.assigned_client_identifier
    ∷ encode_optional_u16 scope server_keep_alive p.server_keep_alive
    ∷ encode_optional_string scope authentication_method p.authentication_method
    ∷ encode_optional_binary scope authentication_data p.authentication_data
    ∷ encode_optional_bool scope request_problem_information p.request_problem_information
    ∷ encode_optional_u32 scope will_delay_interval p.will_delay_interval
    ∷ encode_optional_bool scope request_response_information p.request_response_information
    ∷ encode_optional_string scope response_information p.response_information
    ∷ encode_optional_string scope server_reference p.server_reference
    ∷ encode_optional_string scope reason_string p.reason_string
    ∷ encode_optional_nonzero_u16 scope receive_maximum p.receive_maximum
    ∷ encode_optional_u16 scope topic_alias_maximum p.topic_alias_maximum
    ∷ encode_optional_nonzero_u16 scope topic_alias p.topic_alias
    ∷ encode_maximum_qos scope p.maximum_qos
    ∷ encode_optional_bool scope retain_available p.retain_available
    ∷ write_all (map (encode_user_property scope) p.user_properties)
    ∷ encode_optional_nonzero_u32 scope maximum_packet_size p.maximum_packet_size
    ∷ encode_optional_bool scope wildcard_subscription_available p.wildcard_subscription_available
    ∷ encode_optional_bool scope subscription_identifier_available
        p.subscription_identifier_available
    ∷ encode_optional_bool scope shared_subscription_available p.shared_subscription_available
    ∷ []

unfoldable pub encode : Properties → PropertyScope → Written
unfolding write_all encode_optional encode_subscription_identifier encode_user_property
encode properties scope = do
  body ← write_all (body_parts properties scope)
  size ← encode_variable_byte_integer (length body % 2 ^ 32)
  ok (size ++ body)
