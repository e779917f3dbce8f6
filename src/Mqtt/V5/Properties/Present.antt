-- ===== src/Mqtt/V5/Properties/Present.antt =====
-- mqtt/src/v5/properties.rs: which properties are there.
use yed_mq.Base.{Bool, List, [], false, inl, inr, is_some, not, refl, subst, true, ◌∷◌, ◌≡◌, ◌⊎◌}
use yed_mq.Mqtt.Packet.{Properties}
use yed_mq.Mqtt.V5.Properties.Identifier.{
  PropertyIdentifier, payload_format_indicator, message_expiry_interval, content_type,
  response_topic, correlation_data, subscription_identifier, session_expiry_interval,
  assigned_client_identifier, server_keep_alive, authentication_method, authentication_data,
  request_problem_information, will_delay_interval, request_response_information,
  response_information, server_reference, reason_string, receive_maximum, topic_alias_maximum,
  topic_alias, maximum_qos, retain_available, user_property, maximum_packet_size,
  wildcard_subscription_available, subscription_identifier_available, shared_subscription_available,
}
use yed_mq.Mqtt.V5.Properties.Changes.{Change}

abbrev pub is_nil : {A : Type 0} → List A → Bool
is_nil [] = true
is_nil (x ∷ xs) = false

-- Whether the properties have the property.
abbrev pub present : PropertyIdentifier → Properties → Bool
present payload_format_indicator p = is_some p.payload_format_indicator
present message_expiry_interval p = is_some p.message_expiry_interval
present content_type p = is_some p.content_type
present response_topic p = is_some p.response_topic
present correlation_data p = is_some p.correlation_data
present subscription_identifier p = not (is_nil p.subscription_identifiers)
present session_expiry_interval p = is_some p.session_expiry_interval
present assigned_client_identifier p = is_some p.assigned_client_identifier
present server_keep_alive p = is_some p.server_keep_alive
present authentication_method p = is_some p.authentication_method
present authentication_data p = is_some p.authentication_data
present request_problem_information p = is_some p.request_problem_information
present will_delay_interval p = is_some p.will_delay_interval
present request_response_information p = is_some p.request_response_information
present response_information p = is_some p.response_information
present server_reference p = is_some p.server_reference
present reason_string p = is_some p.reason_string
present receive_maximum p = is_some p.receive_maximum
present topic_alias_maximum p = is_some p.topic_alias_maximum
present topic_alias p = is_some p.topic_alias
present maximum_qos p = is_some p.maximum_qos
present retain_available p = is_some p.retain_available
present user_property p = not (is_nil p.user_properties)
present maximum_packet_size p = is_some p.maximum_packet_size
present wildcard_subscription_available p = is_some p.wildcard_subscription_available
present subscription_identifier_available p = is_some p.subscription_identifier_available
present shared_subscription_available p = is_some p.shared_subscription_available

pub present-Change :
    (i j : PropertyIdentifier) (p p' : Properties)
    → Change i p p'
    → present j p' ≡ true
    → (j ≡ i) ⊎ (present j p ≡ true)
present-Change payload_format_indicator payload_format_indicator p p' c h = inl refl
present-Change message_expiry_interval message_expiry_interval p p' c h = inl refl
present-Change content_type content_type p p' c h = inl refl
present-Change response_topic response_topic p p' c h = inl refl
present-Change correlation_data correlation_data p p' c h = inl refl
present-Change subscription_identifier subscription_identifier p p' c h = inl refl
present-Change session_expiry_interval session_expiry_interval p p' c h = inl refl
present-Change assigned_client_identifier assigned_client_identifier p p' c h = inl refl
present-Change server_keep_alive server_keep_alive p p' c h = inl refl
present-Change authentication_method authentication_method p p' c h = inl refl
present-Change authentication_data authentication_data p p' c h = inl refl
present-Change request_problem_information request_problem_information p p' c h = inl refl
present-Change will_delay_interval will_delay_interval p p' c h = inl refl
present-Change request_response_information request_response_information p p' c h = inl refl
present-Change response_information response_information p p' c h = inl refl
present-Change server_reference server_reference p p' c h = inl refl
present-Change reason_string reason_string p p' c h = inl refl
present-Change receive_maximum receive_maximum p p' c h = inl refl
present-Change topic_alias_maximum topic_alias_maximum p p' c h = inl refl
present-Change topic_alias topic_alias p p' c h = inl refl
present-Change maximum_qos maximum_qos p p' c h = inl refl
present-Change retain_available retain_available p p' c h = inl refl
present-Change user_property user_property p p' c h = inl refl
present-Change maximum_packet_size maximum_packet_size p p' c h = inl refl
present-Change wildcard_subscription_available wildcard_subscription_available p p' c h = inl refl
present-Change subscription_identifier_available subscription_identifier_available p p' c h =
    inl refl
present-Change shared_subscription_available shared_subscription_available p p' c h = inl refl
present-Change payload_format_indicator j p p' c h = inr (subst (λ q. present j q ≡ true) c.1 h)
present-Change message_expiry_interval j p p' c h = inr (subst (λ q. present j q ≡ true) c.1 h)
present-Change content_type j p p' c h = inr (subst (λ q. present j q ≡ true) c.1 h)
present-Change response_topic j p p' c h = inr (subst (λ q. present j q ≡ true) c.1 h)
present-Change correlation_data j p p' c h = inr (subst (λ q. present j q ≡ true) c.1 h)
present-Change subscription_identifier j p p' c h = inr (subst (λ q. present j q ≡ true) c.1 h)
present-Change session_expiry_interval j p p' c h = inr (subst (λ q. present j q ≡ true) c.1 h)
present-Change assigned_client_identifier j p p' c h = inr (subst (λ q. present j q ≡ true) c.1 h)
present-Change server_keep_alive j p p' c h = inr (subst (λ q. present j q ≡ true) c.1 h)
present-Change authentication_method j p p' c h = inr (subst (λ q. present j q ≡ true) c.1 h)
present-Change authentication_data j p p' c h = inr (subst (λ q. present j q ≡ true) c.1 h)
present-Change request_problem_information j p p' c h = inr (subst (λ q. present j q ≡ true) c.1 h)
present-Change will_delay_interval j p p' c h = inr (subst (λ q. present j q ≡ true) c.1 h)
present-Change request_response_information j p p' c h = inr (subst (λ q. present j q ≡ true) c.1 h)
present-Change response_information j p p' c h = inr (subst (λ q. present j q ≡ true) c.1 h)
present-Change server_reference j p p' c h = inr (subst (λ q. present j q ≡ true) c.1 h)
present-Change reason_string j p p' c h = inr (subst (λ q. present j q ≡ true) c.1 h)
present-Change receive_maximum j p p' c h = inr (subst (λ q. present j q ≡ true) c.1 h)
present-Change topic_alias_maximum j p p' c h = inr (subst (λ q. present j q ≡ true) c.1 h)
present-Change topic_alias j p p' c h = inr (subst (λ q. present j q ≡ true) c.1 h)
present-Change maximum_qos j p p' c h = inr (subst (λ q. present j q ≡ true) c.1 h)
present-Change retain_available j p p' c h = inr (subst (λ q. present j q ≡ true) c.1 h)
present-Change user_property j p p' c h = inr (subst (λ q. present j q ≡ true) c.1 h)
present-Change maximum_packet_size j p p' c h = inr (subst (λ q. present j q ≡ true) c.1 h)
present-Change wildcard_subscription_available j p p' c h =
    inr (subst (λ q. present j q ≡ true) c.1 h)
present-Change subscription_identifier_available j p p' c h =
    inr (subst (λ q. present j q ≡ true) c.1 h)
present-Change shared_subscription_available j p p' c h =
    inr (subst (λ q. present j q ≡ true) c.1 h)
