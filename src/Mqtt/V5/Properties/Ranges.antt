-- ===== src/Mqtt/V5/Properties/Ranges.antt =====
-- mqtt/src/v5/properties.rs: reading a property keeps the values in range.
use yed_mq.Base.{All, List, [], arith, subst, sym, true, ℕ, ◌++◌, ◌∷◌, ◌≡◌, ◌≤◌}
use yed_mq.Mqtt.Packet.{Properties}
use yed_mq.Mqtt.V5.Properties.Identifier.{
  PropertyIdentifier, payload_format_indicator, message_expiry_interval, content_type,
  response_topic, correlation_data, subscription_identifier, session_expiry_interval,
  assigned_client_identifier, server_keep_alive, authentication_method, authentication_data,
  request_problem_information, will_delay_interval, request_response_information,
  response_information, server_reference, reason_string, receive_maximum, topic_alias_maximum,
  topic_alias, maximum_qos, retain_available, user_property, maximum_packet_size,
  wildcard_subscription_available, subscription_identifier_available, shared_subscription_available,
}
use yed_mq.Mqtt.V5.Properties.Parse.{at_most_one, not_zero}
use yed_mq.Mqtt.V5.Properties.Rounds.{IfSome}
use yed_mq.Mqtt.V5.Properties.Encodable.{IsEncodable}
use yed_mq.Mqtt.V5.Properties.Changes.{Change}

-- Numbers that must not be 0 are not, and the maximum QoS is 0 or 1.
pub record IsInRange (p : Properties) : Type 0 where
  pub identifiers_pos : All (λ v. not_zero v ≡ true) p.subscription_identifiers
  pub receive_maximum_pos : IfSome (λ v. not_zero v ≡ true) p.receive_maximum
  pub topic_alias_pos : IfSome (λ v. not_zero v ≡ true) p.topic_alias
  pub maximum_packet_size_pos : IfSome (λ v. not_zero v ≡ true) p.maximum_packet_size
  pub maximum_qos_small : IfSome (λ v. v ≤ 1) p.maximum_qos

All-append :
    {A : Type 0} (P : A → Type 0) (xs : List A) (x : A) → All P xs → P x → All P (xs ++ x ∷ [])
All-append P [] x h k = (k, tt)
All-append P (y ∷ xs) x h k = (h.0, All-append P xs x h.1 k)

small_one : (v : ℕ) → at_most_one v ≡ true → v ≤ 1
small_one v h = ground arith

pub IsEncodable-Change :
    (i : PropertyIdentifier) (p p' : Properties) → Change i p p' → IsEncodable p → IsEncodable p'
IsEncodable-Change payload_format_indicator p p' (c0, c1, c2, c3) w =
    subst IsEncodable (sym c1) (let small = small_one c0 (c2.1) in ground arith)
IsEncodable-Change message_expiry_interval p p' (c0, c1, c2, c3) w =
    subst IsEncodable (sym c1) (ground arith)
IsEncodable-Change content_type p p' (c0, c1, c2, c3) w = subst IsEncodable (sym c1) (ground arith)
IsEncodable-Change response_topic p p' (c0, c1, c2, c3) w =
    subst IsEncodable (sym c1) (ground arith)
IsEncodable-Change correlation_data p p' (c0, c1, c2, c3) w =
    subst IsEncodable (sym c1) (ground arith)
IsEncodable-Change subscription_identifier p p' (c0, c1, c2, c3) w =
    subst IsEncodable (sym c1) (ground arith)
IsEncodable-Change session_expiry_interval p p' (c0, c1, c2, c3) w =
    subst IsEncodable (sym c1) (ground arith)
IsEncodable-Change assigned_client_identifier p p' (c0, c1, c2, c3) w =
    subst IsEncodable (sym c1) (ground arith)
IsEncodable-Change server_keep_alive p p' (c0, c1, c2, c3) w =
    subst IsEncodable (sym c1) (ground arith)
IsEncodable-Change authentication_method p p' (c0, c1, c2, c3) w =
    subst IsEncodable (sym c1) (ground arith)
IsEncodable-Change authentication_data p p' (c0, c1, c2, c3) w =
    subst IsEncodable (sym c1) (ground arith)
IsEncodable-Change request_problem_information p p' (c0, c1, c2, c3) w =
    subst IsEncodable (sym c1) (ground arith)
IsEncodable-Change will_delay_interval p p' (c0, c1, c2, c3) w =
    subst IsEncodable (sym c1) (ground arith)
IsEncodable-Change request_response_information p p' (c0, c1, c2, c3) w =
    subst IsEncodable (sym c1) (ground arith)
IsEncodable-Change response_information p p' (c0, c1, c2, c3) w =
    subst IsEncodable (sym c1) (ground arith)
IsEncodable-Change server_reference p p' (c0, c1, c2, c3) w =
    subst IsEncodable (sym c1) (ground arith)
IsEncodable-Change reason_string p p' (c0, c1, c2, c3) w = subst IsEncodable (sym c1) (ground arith)
IsEncodable-Change receive_maximum p p' (c0, c1, c2, c3) w =
    subst IsEncodable (sym c1) (ground arith)
IsEncodable-Change topic_alias_maximum p p' (c0, c1, c2, c3) w =
    subst IsEncodable (sym c1) (ground arith)
IsEncodable-Change topic_alias p p' (c0, c1, c2, c3) w = subst IsEncodable (sym c1) (ground arith)
IsEncodable-Change maximum_qos p p' (c0, c1, c2, c3) w = subst IsEncodable (sym c1) (ground arith)
IsEncodable-Change retain_available p p' (c0, c1, c2, c3) w =
    subst IsEncodable (sym c1) (ground arith)
IsEncodable-Change user_property p p' (c0, c1, c2, c3) w =
    subst IsEncodable (sym c1)
      (let more = All-append _ p.user_properties c0 w.user_property_fits (c2, c3) in ground arith)
IsEncodable-Change maximum_packet_size p p' (c0, c1, c2, c3) w =
    subst IsEncodable (sym c1) (ground arith)
IsEncodable-Change wildcard_subscription_available p p' (c0, c1, c2, c3) w =
    subst IsEncodable (sym c1) (ground arith)
IsEncodable-Change subscription_identifier_available p p' (c0, c1, c2, c3) w =
    subst IsEncodable (sym c1) (ground arith)
IsEncodable-Change shared_subscription_available p p' (c0, c1, c2, c3) w =
    subst IsEncodable (sym c1) (ground arith)

pub IsInRange-Change :
    (i : PropertyIdentifier) (p p' : Properties) → Change i p p' → IsInRange p → IsInRange p'
IsInRange-Change payload_format_indicator p p' (c0, c1, c2, c3) w =
    subst IsInRange (sym c1) (ground arith)
IsInRange-Change message_expiry_interval p p' (c0, c1, c2, c3) w =
    subst IsInRange (sym c1) (ground arith)
IsInRange-Change content_type p p' (c0, c1, c2, c3) w = subst IsInRange (sym c1) (ground arith)
IsInRange-Change response_topic p p' (c0, c1, c2, c3) w = subst IsInRange (sym c1) (ground arith)
IsInRange-Change correlation_data p p' (c0, c1, c2, c3) w = subst IsInRange (sym c1) (ground arith)
IsInRange-Change subscription_identifier p p' (c0, c1, c2, c3) w =
    subst IsInRange (sym c1)
      (let more = All-append _ p.subscription_identifiers c0 w.identifiers_pos c3 in ground arith)
IsInRange-Change session_expiry_interval p p' (c0, c1, c2, c3) w =
    subst IsInRange (sym c1) (ground arith)
IsInRange-Change assigned_client_identifier p p' (c0, c1, c2, c3) w =
    subst IsInRange (sym c1) (ground arith)
IsInRange-Change server_keep_alive p p' (c0, c1, c2, c3) w = subst IsInRange (sym c1) (ground arith)
IsInRange-Change authentication_method p p' (c0, c1, c2, c3) w =
    subst IsInRange (sym c1) (ground arith)
IsInRange-Change authentication_data p p' (c0, c1, c2, c3) w =
    subst IsInRange (sym c1) (ground arith)
IsInRange-Change request_problem_information p p' (c0, c1, c2, c3) w =
    subst IsInRange (sym c1) (ground arith)
IsInRange-Change will_delay_interval p p' (c0, c1, c2, c3) w =
    subst IsInRange (sym c1) (ground arith)
IsInRange-Change request_response_information p p' (c0, c1, c2, c3) w =
    subst IsInRange (sym c1) (ground arith)
IsInRange-Change response_information p p' (c0, c1, c2, c3) w =
    subst IsInRange (sym c1) (ground arith)
IsInRange-Change server_reference p p' (c0, c1, c2, c3) w = subst IsInRange (sym c1) (ground arith)
IsInRange-Change reason_string p p' (c0, c1, c2, c3) w = subst IsInRange (sym c1) (ground arith)
IsInRange-Change receive_maximum p p' (c0, c1, c2, c3) w = subst IsInRange (sym c1) (ground arith)
IsInRange-Change topic_alias_maximum p p' (c0, c1, c2, c3) w =
    subst IsInRange (sym c1) (ground arith)
IsInRange-Change topic_alias p p' (c0, c1, c2, c3) w = subst IsInRange (sym c1) (ground arith)
IsInRange-Change maximum_qos p p' (c0, c1, c2, c3) w =
    subst IsInRange (sym c1) (let small = small_one c0 (c2.1) in ground arith)
IsInRange-Change retain_available p p' (c0, c1, c2, c3) w = subst IsInRange (sym c1) (ground arith)
IsInRange-Change user_property p p' (c0, c1, c2, c3) w = subst IsInRange (sym c1) (ground arith)
IsInRange-Change maximum_packet_size p p' (c0, c1, c2, c3) w =
    subst IsInRange (sym c1) (ground arith)
IsInRange-Change wildcard_subscription_available p p' (c0, c1, c2, c3) w =
    subst IsInRange (sym c1) (ground arith)
IsInRange-Change subscription_identifier_available p p' (c0, c1, c2, c3) w =
    subst IsInRange (sym c1) (ground arith)
IsInRange-Change shared_subscription_available p p' (c0, c1, c2, c3) w =
    subst IsInRange (sym c1) (ground arith)
