-- ===== src/Mqtt/V5/Properties/Identifier.antt =====
-- mqtt/src/v5/properties.rs: the identifiers of properties, and the packets that may carry each.
use yed_mq.Base.{Bool, Result, Text, codes, err, false, if◌then◌else◌, ok, true, ℕ, ◌==◌}
use yed_mq.Mqtt.V5.Primitives.{Mqtt5ParseError, unknown_property}

pub data PropertyScope : Type 0 where
  connect connack publish will puback pubrec pubrel pubcomp subscribe suback unsubscribe unsuback
        disconnect auth :
      PropertyScope

unfoldable pub scope_name : PropertyScope → Text
unfolding codes
scope_name connect = codes "CONNECT"
scope_name connack = codes "CONNACK"
scope_name publish = codes "PUBLISH"
scope_name will = codes "Will Properties"
scope_name puback = codes "PUBACK"
scope_name pubrec = codes "PUBREC"
scope_name pubrel = codes "PUBREL"
scope_name pubcomp = codes "PUBCOMP"
scope_name subscribe = codes "SUBSCRIBE"
scope_name suback = codes "SUBACK"
scope_name unsubscribe = codes "UNSUBSCRIBE"
scope_name unsuback = codes "UNSUBACK"
scope_name disconnect = codes "DISCONNECT"
scope_name auth = codes "AUTH"

pub data PropertyIdentifier : Type 0 where
  payload_format_indicator message_expiry_interval content_type : PropertyIdentifier
  response_topic correlation_data subscription_identifier : PropertyIdentifier
  session_expiry_interval assigned_client_identifier server_keep_alive : PropertyIdentifier
  authentication_method authentication_data request_problem_information : PropertyIdentifier
  will_delay_interval request_response_information response_information : PropertyIdentifier
  server_reference reason_string receive_maximum : PropertyIdentifier
  topic_alias_maximum topic_alias maximum_qos : PropertyIdentifier
  retain_available user_property maximum_packet_size : PropertyIdentifier
  wildcard_subscription_available subscription_identifier_available shared_subscription_available :
      PropertyIdentifier

unfoldable pub from_u32 : ℕ → Result Mqtt5ParseError PropertyIdentifier
from_u32 value =
    if value == 0x01
    then ok payload_format_indicator
    else if value == 0x02
    then ok message_expiry_interval
    else if value == 0x03
    then ok content_type
    else if value == 0x08
    then ok response_topic
    else if value == 0x09
    then ok correlation_data
    else if value == 0x0b
    then ok subscription_identifier
    else if value == 0x11
    then ok session_expiry_interval
    else if value == 0x12
    then ok assigned_client_identifier
    else if value == 0x13
    then ok server_keep_alive
    else if value == 0x15
    then ok authentication_method
    else if value == 0x16
    then ok authentication_data
    else if value == 0x17
    then ok request_problem_information
    else if value == 0x18
    then ok will_delay_interval
    else if value == 0x19
    then ok request_response_information
    else if value == 0x1a
    then ok response_information
    else if value == 0x1c
    then ok server_reference
    else if value == 0x1f
    then ok reason_string
    else if value == 0x21
    then ok receive_maximum
    else if value == 0x22
    then ok topic_alias_maximum
    else if value == 0x23
    then ok topic_alias
    else if value == 0x24
    then ok maximum_qos
    else if value == 0x25
    then ok retain_available
    else if value == 0x26
    then ok user_property
    else if value == 0x27
    then ok maximum_packet_size
    else if value == 0x28
    then ok wildcard_subscription_available
    else if value == 0x29
    then ok subscription_identifier_available
    else if value == 0x2a
    then ok shared_subscription_available
    else err (unknown_property value)

unfoldable pub as_u32 : PropertyIdentifier → ℕ
as_u32 payload_format_indicator = 0x01
as_u32 message_expiry_interval = 0x02
as_u32 content_type = 0x03
as_u32 response_topic = 0x08
as_u32 correlation_data = 0x09
as_u32 subscription_identifier = 0x0b
as_u32 session_expiry_interval = 0x11
as_u32 assigned_client_identifier = 0x12
as_u32 server_keep_alive = 0x13
as_u32 authentication_method = 0x15
as_u32 authentication_data = 0x16
as_u32 request_problem_information = 0x17
as_u32 will_delay_interval = 0x18
as_u32 request_response_information = 0x19
as_u32 response_information = 0x1a
as_u32 server_reference = 0x1c
as_u32 reason_string = 0x1f
as_u32 receive_maximum = 0x21
as_u32 topic_alias_maximum = 0x22
as_u32 topic_alias = 0x23
as_u32 maximum_qos = 0x24
as_u32 retain_available = 0x25
as_u32 user_property = 0x26
as_u32 maximum_packet_size = 0x27
as_u32 wildcard_subscription_available = 0x28
as_u32 subscription_identifier_available = 0x29
as_u32 shared_subscription_available = 0x2a

unfoldable pub name : PropertyIdentifier → Text
unfolding codes
name payload_format_indicator = codes "payload_format_indicator"
name message_expiry_interval = codes "message_expiry_interval"
name content_type = codes "content_type"
name response_topic = codes "response_topic"
name correlation_data = codes "correlation_data"
name subscription_identifier = codes "subscription_identifier"
name session_expiry_interval = codes "session_expiry_interval"
name assigned_client_identifier = codes "assigned_client_identifier"
name server_keep_alive = codes "server_keep_alive"
name authentication_method = codes "authentication_method"
name authentication_data = codes "authentication_data"
name request_problem_information = codes "request_problem_information"
name will_delay_interval = codes "will_delay_interval"
name request_response_information = codes "request_response_information"
name response_information = codes "response_information"
name server_reference = codes "server_reference"
name reason_string = codes "reason_string"
name receive_maximum = codes "receive_maximum"
name topic_alias_maximum = codes "topic_alias_maximum"
name topic_alias = codes "topic_alias"
name maximum_qos = codes "maximum_qos"
name retain_available = codes "retain_available"
name user_property = codes "user_property"
name maximum_packet_size = codes "maximum_packet_size"
name wildcard_subscription_available = codes "wildcard_subscription_available"
name subscription_identifier_available = codes "subscription_identifier_available"
name shared_subscription_available = codes "shared_subscription_available"

unfoldable pub allowed_on : PropertyIdentifier → PropertyScope → Bool
allowed_on session_expiry_interval PropertyScope.connect = true
allowed_on receive_maximum PropertyScope.connect = true
allowed_on maximum_packet_size PropertyScope.connect = true
allowed_on topic_alias_maximum PropertyScope.connect = true
allowed_on request_response_information PropertyScope.connect = true
allowed_on request_problem_information PropertyScope.connect = true
allowed_on user_property PropertyScope.connect = true
allowed_on authentication_method PropertyScope.connect = true
allowed_on authentication_data PropertyScope.connect = true
allowed_on session_expiry_interval PropertyScope.connack = true
allowed_on assigned_client_identifier PropertyScope.connack = true
allowed_on server_keep_alive PropertyScope.connack = true
allowed_on authentication_method PropertyScope.connack = true
allowed_on authentication_data PropertyScope.connack = true
allowed_on response_information PropertyScope.connack = true
allowed_on server_reference PropertyScope.connack = true
allowed_on reason_string PropertyScope.connack = true
allowed_on receive_maximum PropertyScope.connack = true
allowed_on topic_alias_maximum PropertyScope.connack = true
allowed_on maximum_qos PropertyScope.connack = true
allowed_on retain_available PropertyScope.connack = true
allowed_on user_property PropertyScope.connack = true
allowed_on maximum_packet_size PropertyScope.connack = true
allowed_on wildcard_subscription_available PropertyScope.connack = true
allowed_on subscription_identifier_available PropertyScope.connack = true
allowed_on shared_subscription_available PropertyScope.connack = true
allowed_on payload_format_indicator PropertyScope.publish = true
allowed_on message_expiry_interval PropertyScope.publish = true
allowed_on content_type PropertyScope.publish = true
allowed_on response_topic PropertyScope.publish = true
allowed_on correlation_data PropertyScope.publish = true
allowed_on subscription_identifier PropertyScope.publish = true
allowed_on topic_alias PropertyScope.publish = true
allowed_on user_property PropertyScope.publish = true
allowed_on payload_format_indicator PropertyScope.will = true
allowed_on message_expiry_interval PropertyScope.will = true
allowed_on content_type PropertyScope.will = true
allowed_on response_topic PropertyScope.will = true
allowed_on correlation_data PropertyScope.will = true
allowed_on will_delay_interval PropertyScope.will = true
allowed_on user_property PropertyScope.will = true
allowed_on reason_string PropertyScope.puback = true
allowed_on user_property PropertyScope.puback = true
allowed_on reason_string PropertyScope.pubrec = true
allowed_on user_property PropertyScope.pubrec = true
allowed_on reason_string PropertyScope.pubrel = true
allowed_on user_property PropertyScope.pubrel = true
allowed_on reason_string PropertyScope.pubcomp = true
allowed_on user_property PropertyScope.pubcomp = true
allowed_on subscription_identifier PropertyScope.subscribe = true
allowed_on user_property PropertyScope.subscribe = true
allowed_on reason_string PropertyScope.suback = true
allowed_on user_property PropertyScope.suback = true
allowed_on user_property PropertyScope.unsubscribe = true
allowed_on reason_string PropertyScope.unsuback = true
allowed_on user_property PropertyScope.unsuback = true
allowed_on session_expiry_interval PropertyScope.disconnect = true
allowed_on reason_string PropertyScope.disconnect = true
allowed_on user_property PropertyScope.disconnect = true
allowed_on server_reference PropertyScope.disconnect = true
allowed_on authentication_method PropertyScope.auth = true
allowed_on authentication_data PropertyScope.auth = true
allowed_on reason_string PropertyScope.auth = true
allowed_on user_property PropertyScope.auth = true
allowed_on _ _ = false
