-- ===== src/Mqtt/V5/Properties/Encodable.antt =====
-- mqtt/src/v5/properties.rs: what the types of the fields can hold, and the properties read so far.
use yed_mq.Base.{All, u16_max, u32_max, ◌≤◌}
use yed_mq.Mqtt.Packet.{Properties, default_properties}
use yed_mq.Mqtt.V5.Primitives.Taken.{Utf8}
use yed_mq.Mqtt.V5.Properties.Rounds.{IfSome}

-- The values that the fields' types, `u16`, `u32` and `String`, can hold, and a payload format indicator
-- of 0 or 1.
pub record IsEncodable (p : Properties) : Type 0 where
  pub payload_format_indicator_fits : IfSome (λ v. v ≤ 1) p.payload_format_indicator
  pub message_expiry_interval_fits : IfSome (λ v. v ≤ u32_max) p.message_expiry_interval
  pub content_type_fits : IfSome Utf8 p.content_type
  pub response_topic_fits : IfSome Utf8 p.response_topic
  pub session_expiry_interval_fits : IfSome (λ v. v ≤ u32_max) p.session_expiry_interval
  pub assigned_client_identifier_fits : IfSome Utf8 p.assigned_client_identifier
  pub server_keep_alive_fits : IfSome (λ v. v ≤ u16_max) p.server_keep_alive
  pub authentication_method_fits : IfSome Utf8 p.authentication_method
  pub will_delay_interval_fits : IfSome (λ v. v ≤ u32_max) p.will_delay_interval
  pub response_information_fits : IfSome Utf8 p.response_information
  pub server_reference_fits : IfSome Utf8 p.server_reference
  pub reason_string_fits : IfSome Utf8 p.reason_string
  pub receive_maximum_fits : IfSome (λ v. v ≤ u16_max) p.receive_maximum
  pub topic_alias_maximum_fits : IfSome (λ v. v ≤ u16_max) p.topic_alias_maximum
  pub topic_alias_fits : IfSome (λ v. v ≤ u16_max) p.topic_alias
  pub user_property_fits : All (λ kv. Utf8 (kv.0) × Utf8 (kv.1)) p.user_properties
  pub maximum_packet_size_fits : IfSome (λ v. v ≤ u32_max) p.maximum_packet_size

-- What has been read when the property's turn is over, from the first property on.
abbrev pub upto_start : Properties → Properties
upto_start p = default_properties

abbrev pub upto_payload_format_indicator : Properties → Properties
upto_payload_format_indicator p = record (upto_start p) {
  payload_format_indicator = p.payload_format_indicator;
}

abbrev pub upto_message_expiry_interval : Properties → Properties
upto_message_expiry_interval p = record (upto_payload_format_indicator p) {
  message_expiry_interval = p.message_expiry_interval;
}

abbrev pub upto_content_type : Properties → Properties
upto_content_type p = record (upto_message_expiry_interval p) { content_type = p.content_type }

abbrev pub upto_response_topic : Properties → Properties
upto_response_topic p = record (upto_content_type p) { response_topic = p.response_topic }

abbrev pub upto_correlation_data : Properties → Properties
upto_correlation_data p = record (upto_response_topic p) { correlation_data = p.correlation_data }

abbrev pub upto_subscription_identifier : Properties → Properties
upto_subscription_identifier p = record (upto_correlation_data p) {
  subscription_identifiers = p.subscription_identifiers;
}

abbrev pub upto_session_expiry_interval : Properties → Properties
upto_session_expiry_interval p = record (upto_subscription_identifier p) {
  session_expiry_interval = p.session_expiry_interval;
}

abbrev pub upto_assigned_client_identifier : Properties → Properties
upto_assigned_client_identifier p = record (upto_session_expiry_interval p) {
  assigned_client_identifier = p.assigned_client_identifier;
}

abbrev pub upto_server_keep_alive : Properties → Properties
upto_server_keep_alive p = record (upto_assigned_client_identifier p) {
  server_keep_alive = p.server_keep_alive;
}

abbrev pub upto_authentication_method : Properties → Properties
upto_authentication_method p = record (upto_server_keep_alive p) {
  authentication_method = p.authentication_method;
}

abbrev pub upto_authentication_data : Properties → Properties
upto_authentication_data p = record (upto_authentication_method p) {
  authentication_data = p.authentication_data;
}

abbrev pub upto_request_problem_information : Properties → Properties
upto_request_problem_information p = record (upto_authentication_data p) {
  request_problem_information = p.request_problem_information;
}

abbrev pub upto_will_delay_interval : Properties → Properties
upto_will_delay_interval p = record (upto_request_problem_information p) {
  will_delay_interval = p.will_delay_interval;
}

abbrev pub upto_request_response_information : Properties → Properties
upto_request_response_information p = record (upto_will_delay_interval p) {
  request_response_information = p.request_response_information;
}

abbrev pub upto_response_information : Properties → Properties
upto_response_information p = record (upto_request_response_information p) {
  response_information = p.response_information;
}

abbrev pub upto_server_reference : Properties → Properties
upto_server_reference p = record (upto_response_information p) {
  server_reference = p.server_reference;
}

abbrev pub upto_reason_string : Properties → Properties
upto_reason_string p = record (upto_server_reference p) { reason_string = p.reason_string }

abbrev pub upto_receive_maximum : Properties → Properties
upto_receive_maximum p = record (upto_reason_string p) { receive_maximum = p.receive_maximum }

abbrev pub upto_topic_alias_maximum : Properties → Properties
upto_topic_alias_maximum p = record (upto_receive_maximum p) {
  topic_alias_maximum = p.topic_alias_maximum;
}

abbrev pub upto_topic_alias : Properties → Properties
upto_topic_alias p = record (upto_topic_alias_maximum p) { topic_alias = p.topic_alias }

abbrev pub upto_maximum_qos : Properties → Properties
upto_maximum_qos p = record (upto_topic_alias p) { maximum_qos = p.maximum_qos }

abbrev pub upto_retain_available : Properties → Properties
upto_retain_available p = record (upto_maximum_qos p) { retain_available = p.retain_available }

abbrev pub upto_user_property : Properties → Properties
upto_user_property p = record (upto_retain_available p) { user_properties = p.user_properties }

abbrev pub upto_maximum_packet_size : Properties → Properties
upto_maximum_packet_size p = record (upto_user_property p) {
  maximum_packet_size = p.maximum_packet_size;
}

abbrev pub upto_wildcard_subscription_available : Properties → Properties
upto_wildcard_subscription_available p = record (upto_maximum_packet_size p) {
  wildcard_subscription_available = p.wildcard_subscription_available;
}

abbrev pub upto_subscription_identifier_available : Properties → Properties
upto_subscription_identifier_available p = record (upto_wildcard_subscription_available p) {
  subscription_identifier_available = p.subscription_identifier_available;
}

abbrev pub upto_shared_subscription_available : Properties → Properties
upto_shared_subscription_available p = record (upto_subscription_identifier_available p) {
  shared_subscription_available = p.shared_subscription_available;
}
