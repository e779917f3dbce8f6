-- ===== src/Mqtt/Packet.antt =====
-- mqtt/src/packet.rs: the packets that both protocol versions share. A `String` and a `Bytes` are lists
-- of bytes, an unsigned integer is a number.
use yed_mq.Base.{ℕ, Bool, not, ◌==◌, Option, none, some, List, [], Text}

pub data ProtocolVersion : Type 0 where
  v3_1_1 v5_0 : ProtocolVersion

pub data ReasonCode : Type 0 where
  success granted_qos0 granted_qos1 granted_qos2 normal_disconnection no_matching_subscribers :
      ReasonCode
  no_subscription_existed continue_authentication re_authenticate unspecified_error : ReasonCode
  malformed_packet protocol_error implementation_specific_error : ReasonCode
  unsupported_protocol_version client_identifier_not_valid bad_user_name_or_password : ReasonCode
  not_authorized server_unavailable topic_filter_invalid topic_name_invalid : ReasonCode
  packet_identifier_in_use packet_identifier_not_found packet_too_large quota_exceeded : ReasonCode
  payload_format_invalid retain_not_supported qos_not_supported bad_authentication_method :
      ReasonCode
  shared_subscriptions_not_supported subscription_identifiers_not_supported : ReasonCode
  wildcard_subscriptions_not_supported : ReasonCode

unfoldable pub as_u8 : ReasonCode → ℕ
as_u8 success = 0x00
as_u8 granted_qos0 = 0x00
as_u8 normal_disconnection = 0x00
as_u8 granted_qos1 = 0x01
as_u8 granted_qos2 = 0x02
as_u8 no_matching_subscribers = 0x10
as_u8 no_subscription_existed = 0x11
as_u8 continue_authentication = 0x18
as_u8 re_authenticate = 0x19
as_u8 unspecified_error = 0x80
as_u8 malformed_packet = 0x81
as_u8 protocol_error = 0x82
as_u8 implementation_specific_error = 0x83
as_u8 unsupported_protocol_version = 0x84
as_u8 client_identifier_not_valid = 0x85
as_u8 bad_user_name_or_password = 0x86
as_u8 not_authorized = 0x87
as_u8 server_unavailable = 0x88
as_u8 topic_filter_invalid = 0x8f
as_u8 topic_name_invalid = 0x90
as_u8 packet_identifier_in_use = 0x91
as_u8 packet_identifier_not_found = 0x92
as_u8 packet_too_large = 0x95
as_u8 quota_exceeded = 0x97
as_u8 payload_format_invalid = 0x99
as_u8 retain_not_supported = 0x9a
as_u8 qos_not_supported = 0x9b
as_u8 bad_authentication_method = 0x8c
as_u8 shared_subscriptions_not_supported = 0x9e
as_u8 subscription_identifiers_not_supported = 0xa1
as_u8 wildcard_subscriptions_not_supported = 0xa2

pub record Properties : Type 0 where
  pub payload_format_indicator : Option ℕ
  pub message_expiry_interval : Option ℕ
  pub content_type : Option Text
  pub response_topic : Option Text
  pub correlation_data : Option (List ℕ)
  pub subscription_identifiers : List ℕ
  pub session_expiry_interval : Option ℕ
  pub assigned_client_identifier : Option Text
  pub server_keep_alive : Option ℕ
  pub authentication_method : Option Text
  pub authentication_data : Option (List ℕ)
  pub request_problem_information : Option Bool
  pub will_delay_interval : Option ℕ
  pub request_response_information : Option Bool
  pub response_information : Option Text
  pub server_reference : Option Text
  pub reason_string : Option Text
  pub receive_maximum : Option ℕ
  pub topic_alias_maximum : Option ℕ
  pub topic_alias : Option ℕ
  pub maximum_qos : Option ℕ
  pub retain_available : Option Bool
  pub user_properties : List (Text × Text)
  pub maximum_packet_size : Option ℕ
  pub wildcard_subscription_available : Option Bool
  pub subscription_identifier_available : Option Bool
  pub shared_subscription_available : Option Bool

abbrev pub default_properties : Properties
default_properties = record {
  payload_format_indicator = none;
  message_expiry_interval = none;
  content_type = none;
  response_topic = none;
  correlation_data = none;
  subscription_identifiers = [];
  session_expiry_interval = none;
  assigned_client_identifier = none;
  server_keep_alive = none;
  authentication_method = none;
  authentication_data = none;
  request_problem_information = none;
  will_delay_interval = none;
  request_response_information = none;
  response_information = none;
  server_reference = none;
  reason_string = none;
  receive_maximum = none;
  topic_alias_maximum = none;
  topic_alias = none;
  maximum_qos = none;
  retain_available = none;
  user_properties = [];
  maximum_packet_size = none;
  wildcard_subscription_available = none;
  subscription_identifier_available = none;
  shared_subscription_available = none;
}

pub record Will : Type 0 where
  pub topic : Text
  pub payload : List ℕ
  pub qos : ℕ
  pub retain : Bool
  pub properties : Properties

pub record Connect : Type 0 where
  pub protocol_version : ProtocolVersion
  pub client_id : Text
  pub username : Option Text
  pub password : Option Text
  pub keep_alive : ℕ
  pub clean_start : Bool
  pub session_expiry_interval : Option ℕ
  pub will : Option Will
  pub properties : Properties

pub record Connack : Type 0 where
  pub protocol_version : ProtocolVersion
  pub session_present : Bool
  pub reason_code : ReasonCode
  pub properties : Properties

pub record Publish : Type 0 where
  pub protocol_version : ProtocolVersion
  pub topic_name : Text
  pub payload : List ℕ
  pub qos : ℕ
  pub retain : Bool
  pub dup : Bool
  pub packet_identifier : Option ℕ
  pub properties : Properties
  pub expires_at_unix_secs : Option ℕ

pub record Ack : Type 0 where
  pub protocol_version : ProtocolVersion
  pub packet_identifier : ℕ
  pub reason_code : ReasonCode
  pub properties : Properties

pub data RetainHandling : Type 0 where
  send_at_subscribe send_at_subscribe_if_new do_not_send : RetainHandling

pub record SubscribeTopic : Type 0 where
  pub topic_filter : Text
  pub qos : ℕ
  pub no_local : Bool
  pub retain_as_published : Bool
  pub retain_handling : RetainHandling

pub record Subscribe : Type 0 where
  pub protocol_version : ProtocolVersion
  pub packet_identifier : ℕ
  pub topics : List SubscribeTopic
  pub properties : Properties

pub record Suback : Type 0 where
  pub protocol_version : ProtocolVersion
  pub packet_identifier : ℕ
  pub reason_codes : List ReasonCode
  pub properties : Properties

pub record Unsubscribe : Type 0 where
  pub protocol_version : ProtocolVersion
  pub packet_identifier : ℕ
  pub topics : List Text
  pub properties : Properties

pub record Unsuback : Type 0 where
  pub protocol_version : ProtocolVersion
  pub packet_identifier : ℕ
  pub reason_codes : List ReasonCode
  pub properties : Properties

pub record Disconnect : Type 0 where
  pub protocol_version : ProtocolVersion
  pub reason_code : ReasonCode
  pub session_expiry_interval : Option ℕ
  pub properties : Properties

pub record Auth : Type 0 where
  pub reason_code : ReasonCode
  pub properties : Properties

pub data Packet : Type 0 where
  connect : Connect → Packet
  connack : Connack → Packet
  publish : Publish → Packet
  puback pubrec pubrel pubcomp : Ack → Packet
  subscribe : Subscribe → Packet
  suback : Suback → Packet
  unsubscribe : Unsubscribe → Packet
  unsuback : Unsuback → Packet
  pingreq pingresp : Packet
  disconnect : Disconnect → Packet
  auth : Auth → Packet

unfoldable pub protocol_version : Packet → Option ProtocolVersion
protocol_version (connect p) = some p.protocol_version
protocol_version (connack p) = some p.protocol_version
protocol_version (publish p) = some p.protocol_version
protocol_version (puback p) = some p.protocol_version
protocol_version (pubrec p) = some p.protocol_version
protocol_version (pubrel p) = some p.protocol_version
protocol_version (pubcomp p) = some p.protocol_version
protocol_version (subscribe p) = some p.protocol_version
protocol_version (suback p) = some p.protocol_version
protocol_version (unsubscribe p) = some p.protocol_version
protocol_version (unsuback p) = some p.protocol_version
protocol_version (disconnect p) = some p.protocol_version
protocol_version pingreq = none
protocol_version pingresp = none
protocol_version (auth p) = none

-- `dup` is an `i32`; only whether it is zero is read.
unfoldable pub set_dup : Packet → ℕ → Packet
set_dup (publish p) dup = publish (record p { dup = not (dup == 0) })
set_dup p dup = p
