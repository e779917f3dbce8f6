-- ===== src/Mqtt/V5/Properties/Parse.antt =====
-- mqtt/src/v5/properties.rs: reading the properties of a packet. The loop runs on fuel: every round takes
-- at least one byte, so the number of bytes is enough.
use yed_mq.Base.{
  Bool, List, Option, Result, Text, [], codes, drop, ensure, err, leb, length, none, not, ok, some,
  suc, take, zero, ℕ, ◌++◌, ◌==◌, ◌>>=◌, ◌>>◌, ◌∷◌,
}
use yed_mq.Mqtt.Packet.{Properties, default_properties}
use yed_mq.Mqtt.V5.Primitives.{
  Mqtt5ParseError, Parsed, duplicate_property, incomplete, invalid_property_value, parse_binary,
  parse_boolean, parse_u16, parse_u32, parse_u8, parse_utf8_string, parse_variable_byte_integer,
  property_not_allowed,
}
use yed_mq.Mqtt.V5.Properties.Identifier.{
  PropertyScope, scope_name, PropertyIdentifier, from_u32, name, allowed_on,
  payload_format_indicator, message_expiry_interval, content_type, response_topic, correlation_data,
  subscription_identifier, session_expiry_interval, assigned_client_identifier, server_keep_alive,
  authentication_method, authentication_data, request_problem_information, will_delay_interval,
  request_response_information, response_information, server_reference, reason_string,
  receive_maximum, topic_alias_maximum, topic_alias, maximum_qos, retain_available, user_property,
  maximum_packet_size, wildcard_subscription_available, subscription_identifier_available,
  shared_subscription_available,
}

unfoldable pub set_once : {A : Type 0} → Option A → A → Text → Result Mqtt5ParseError (Option A)
set_once (some old) value property_name = err (duplicate_property property_name)
set_once none value property_name = ok (some value)

unfoldable pub ensure_allowed :
    PropertyIdentifier → PropertyScope → Result Mqtt5ParseError (Unit {0})
ensure_allowed identifier scope =
    ensure (allowed_on identifier scope) (property_not_allowed (name identifier) (scope_name scope))

-- A value that fails the test is refused.
abbrev pub checked : (ℕ → Bool) → Text → Parsed ℕ → Parsed ℕ
checked test property_name m = do
  (value, input) ← m
  ensure (test value) (invalid_property_value property_name)
  ok (value, input)

-- A property that a packet has once at most: `write` puts it into the properties.
abbrev pub read_once :
    {A : Type 0} → Text → Option A → (Option A → Properties) → Parsed A → Parsed Properties
read_once property_name field write m = do
  (value, input) ← m
  field' ← set_once field value property_name
  ok (write field', input)

abbrev pub not_zero : ℕ → Bool
not_zero value = not (value == 0)

abbrev pub at_most_one : ℕ → Bool
at_most_one value = leb value 1

unfoldable pub read_property : PropertyIdentifier → Properties → List ℕ → Parsed Properties
unfolding set_once
read_property payload_format_indicator p s =
    read_once (name payload_format_indicator) p.payload_format_indicator
      (λ x. record p { payload_format_indicator = x })
      (checked at_most_one (name payload_format_indicator)
        (parse_u8 s (name payload_format_indicator)))
read_property message_expiry_interval p s =
    read_once (name message_expiry_interval) p.message_expiry_interval
      (λ x. record p { message_expiry_interval = x }) (parse_u32 s (name message_expiry_interval))
read_property content_type p s =
    read_once (name content_type) p.content_type (λ x. record p { content_type = x })
      (parse_utf8_string s)
read_property response_topic p s =
    read_once (name response_topic) p.response_topic (λ x. record p { response_topic = x })
      (parse_utf8_string s)
read_property correlation_data p s =
    read_once (name correlation_data) p.correlation_data (λ x. record p { correlation_data = x })
      (parse_binary s)
read_property subscription_identifier p s = do
  (value, s) ← checked not_zero (name subscription_identifier) (parse_variable_byte_integer s)
  ok (record p { subscription_identifiers = p.subscription_identifiers ++ value ∷ [] }, s)
read_property session_expiry_interval p s =
    read_once (name session_expiry_interval) p.session_expiry_interval
      (λ x. record p { session_expiry_interval = x }) (parse_u32 s (name session_expiry_interval))
read_property assigned_client_identifier p s =
    read_once (name assigned_client_identifier) p.assigned_client_identifier
      (λ x. record p { assigned_client_identifier = x }) (parse_utf8_string s)
read_property server_keep_alive p s =
    read_once (name server_keep_alive) p.server_keep_alive (λ x. record p { server_keep_alive = x })
      (parse_u16 s (name server_keep_alive))
read_property authentication_method p s =
    read_once (name authentication_method) p.authentication_method
      (λ x. record p { authentication_method = x }) (parse_utf8_string s)
read_property authentication_data p s =
    read_once (name authentication_data) p.authentication_data
      (λ x. record p { authentication_data = x }) (parse_binary s)
read_property request_problem_information p s =
    read_once (name request_problem_information) p.request_problem_information
      (λ x. record p { request_problem_information = x })
      (parse_boolean s (name request_problem_information))
read_property will_delay_interval p s =
    read_once (name will_delay_interval) p.will_delay_interval
      (λ x. record p { will_delay_interval = x }) (parse_u32 s (name will_delay_interval))
read_property request_response_information p s =
    read_once (name request_response_information) p.request_response_information
      (λ x. record p { request_response_information = x })
      (parse_boolean s (name request_response_information))
read_property response_information p s =
    read_once (name response_information) p.response_information
      (λ x. record p { response_information = x }) (parse_utf8_string s)
read_property server_reference p s =
    read_once (name server_reference) p.server_reference (λ x. record p { server_reference = x })
      (parse_utf8_string s)
read_property reason_string p s =
    read_once (name reason_string) p.reason_string (λ x. record p { reason_string = x })
      (parse_utf8_string s)
read_property receive_maximum p s =
    read_once (name receive_maximum) p.receive_maximum (λ x. record p { receive_maximum = x })
      (checked not_zero (name receive_maximum) (parse_u16 s (name receive_maximum)))
read_property topic_alias_maximum p s =
    read_once (name topic_alias_maximum) p.topic_alias_maximum
      (λ x. record p { topic_alias_maximum = x }) (parse_u16 s (name topic_alias_maximum))
read_property topic_alias p s =
    read_once (name topic_alias) p.topic_alias (λ x. record p { topic_alias = x })
      (checked not_zero (name topic_alias) (parse_u16 s (name topic_alias)))
read_property maximum_qos p s =
    read_once (name maximum_qos) p.maximum_qos (λ x. record p { maximum_qos = x })
      (checked at_most_one (name maximum_qos) (parse_u8 s (name maximum_qos)))
read_property retain_available p s =
    read_once (name retain_available) p.retain_available (λ x. record p { retain_available = x })
      (parse_boolean s (name retain_available))
read_property user_property p s = do
  (key, s) ← parse_utf8_string s
  (value, s) ← parse_utf8_string s
  ok (record p { user_properties = p.user_properties ++ (key, value) ∷ [] }, s)
read_property maximum_packet_size p s =
    read_once (name maximum_packet_size) p.maximum_packet_size
      (λ x. record p { maximum_packet_size = x })
      (checked not_zero (name maximum_packet_size) (parse_u32 s (name maximum_packet_size)))
read_property wildcard_subscription_available p s =
    read_once (name wildcard_subscription_available) p.wildcard_subscription_available
      (λ x. record p { wildcard_subscription_available = x })
      (parse_boolean s (name wildcard_subscription_available))
read_property subscription_identifier_available p s =
    read_once (name subscription_identifier_available) p.subscription_identifier_available
      (λ x. record p { subscription_identifier_available = x })
      (parse_boolean s (name subscription_identifier_available))
read_property shared_subscription_available p s =
    read_once (name shared_subscription_available) p.shared_subscription_available
      (λ x. record p { shared_subscription_available = x })
      (parse_boolean s (name shared_subscription_available))

-- `while !property_input.is_empty()`
unfoldable pub parse_loop :
    ℕ → PropertyScope → List ℕ → Properties → Result Mqtt5ParseError Properties
unfolding ensure_allowed read_property
parse_loop _ scope [] properties = ok properties
parse_loop zero scope (b ∷ s) properties = err (incomplete (codes "properties"))
parse_loop (suc fuel) scope (b ∷ s) properties = do
  (value, s) ← parse_variable_byte_integer (b ∷ s)
  identifier ← from_u32 value
  ensure_allowed identifier scope
  (properties, s) ← read_property identifier properties s
  parse_loop fuel scope s properties

unfoldable pub parse : List ℕ → PropertyScope → Parsed Properties
unfolding parse_loop
parse input scope = do
  (property_length, input) ← parse_variable_byte_integer input
  ensure (leb property_length (length input)) (incomplete (codes "properties"))
  properties ← parse_loop property_length scope (take property_length input) default_properties
  ok (properties, drop property_length input)
