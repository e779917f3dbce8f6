-- ===== src/Mqtt/V5/Properties/Codes.antt =====
-- mqtt/src/v5/properties.rs: the numbers of the properties.
use yed_mq.Base.{arith, ok, refl, ℕ, ◌≡◌}
use yed_mq.Mqtt.V5.Properties.Identifier.{
  PropertyIdentifier, from_u32, as_u32, payload_format_indicator, message_expiry_interval,
  content_type, response_topic, correlation_data, subscription_identifier, session_expiry_interval,
  assigned_client_identifier, server_keep_alive, authentication_method, authentication_data,
  request_problem_information, will_delay_interval, request_response_information,
  response_information, server_reference, reason_string, receive_maximum, topic_alias_maximum,
  topic_alias, maximum_qos, retain_available, user_property, maximum_packet_size,
  wildcard_subscription_available, subscription_identifier_available, shared_subscription_available,
}

pub from_u32-as_u32 : (i : PropertyIdentifier) → from_u32 (as_u32 i) ≡ ok i
unfolding from_u32 as_u32
from_u32-as_u32 payload_format_indicator = refl
from_u32-as_u32 message_expiry_interval = refl
from_u32-as_u32 content_type = refl
from_u32-as_u32 response_topic = refl
from_u32-as_u32 correlation_data = refl
from_u32-as_u32 subscription_identifier = refl
from_u32-as_u32 session_expiry_interval = refl
from_u32-as_u32 assigned_client_identifier = refl
from_u32-as_u32 server_keep_alive = refl
from_u32-as_u32 authentication_method = refl
from_u32-as_u32 authentication_data = refl
from_u32-as_u32 request_problem_information = refl
from_u32-as_u32 will_delay_interval = refl
from_u32-as_u32 request_response_information = refl
from_u32-as_u32 response_information = refl
from_u32-as_u32 server_reference = refl
from_u32-as_u32 reason_string = refl
from_u32-as_u32 receive_maximum = refl
from_u32-as_u32 topic_alias_maximum = refl
from_u32-as_u32 topic_alias = refl
from_u32-as_u32 maximum_qos = refl
from_u32-as_u32 retain_available = refl
from_u32-as_u32 user_property = refl
from_u32-as_u32 maximum_packet_size = refl
from_u32-as_u32 wildcard_subscription_available = refl
from_u32-as_u32 subscription_identifier_available = refl
from_u32-as_u32 shared_subscription_available = refl

pub as_u32-from_u32 :
    (value : ℕ) {i : PropertyIdentifier} → from_u32 value ≡ ok i → as_u32 i ≡ value
unfolding from_u32 as_u32
as_u32-from_u32 value e = ground arith
