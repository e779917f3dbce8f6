-- ===== src/Mqtt/V5/Properties/TextTurns.antt =====
-- mqtt/src/v5/properties.rs: the turns of strings and binary data.
use yed_mq.Base.{List, ok, refl, ℕ, ◌≡◌}
use yed_mq.Mqtt.Packet.{Properties}
use yed_mq.Mqtt.V5.Properties.Identifier.{PropertyScope, PropertyIdentifier}
use yed_mq.Mqtt.V5.Properties.Parse.{read_property}
use yed_mq.Mqtt.V5.Properties.Encode.{encode_optional_binary, encode_optional_string}
use yed_mq.Mqtt.V5.Properties.Rounds.{Fills}
use yed_mq.Mqtt.V5.Properties.Kinds.{any_value, binary-Fills, string-Fills}
use yed_mq.Mqtt.V5.Properties.Encodable.{
  IsEncodable, upto_assigned_client_identifier, upto_authentication_data,
  upto_authentication_method, upto_content_type, upto_correlation_data,
  upto_message_expiry_interval, upto_reason_string, upto_request_response_information,
  upto_response_information, upto_response_topic, upto_server_keep_alive, upto_server_reference,
  upto_session_expiry_interval,
}

module _ (scope : PropertyScope) (p : Properties) (w : IsEncodable p) where
  pub content_type_turn :
      (bytes : List ℕ)
      → encode_optional_string scope PropertyIdentifier.content_type p.content_type ≡ ok bytes
      → Fills scope (upto_message_expiry_interval p) bytes (upto_content_type p)
  unfolding read_property
  content_type_turn =
      string-Fills scope PropertyIdentifier.content_type
        (λ x. record (upto_message_expiry_interval p) { content_type = x }) (λ s. refl)
        p.content_type w.content_type_fits

  pub response_topic_turn :
      (bytes : List ℕ)
      → encode_optional_string scope PropertyIdentifier.response_topic p.response_topic ≡ ok bytes
      → Fills scope (upto_content_type p) bytes (upto_response_topic p)
  unfolding read_property
  response_topic_turn =
      string-Fills scope PropertyIdentifier.response_topic
        (λ x. record (upto_content_type p) { response_topic = x }) (λ s. refl) p.response_topic
        w.response_topic_fits

  pub correlation_data_turn :
      (bytes : List ℕ)
      → encode_optional_binary scope PropertyIdentifier.correlation_data p.correlation_data
        ≡ ok bytes
      → Fills scope (upto_response_topic p) bytes (upto_correlation_data p)
  unfolding read_property
  correlation_data_turn =
      binary-Fills scope PropertyIdentifier.correlation_data
        (λ x. record (upto_response_topic p) { correlation_data = x }) (λ s. refl)
        p.correlation_data (any_value p.correlation_data)

  pub assigned_client_identifier_turn :
      (bytes : List ℕ)
      → encode_optional_string scope PropertyIdentifier.assigned_client_identifier
          p.assigned_client_identifier
        ≡ ok bytes
      → Fills scope (upto_session_expiry_interval p) bytes (upto_assigned_client_identifier p)
  unfolding read_property
  assigned_client_identifier_turn =
      string-Fills scope PropertyIdentifier.assigned_client_identifier
        (λ x. record (upto_session_expiry_interval p) { assigned_client_identifier = x })
        (λ s. refl) p.assigned_client_identifier w.assigned_client_identifier_fits

  pub authentication_method_turn :
      (bytes : List ℕ)
      → encode_optional_string scope PropertyIdentifier.authentication_method
          p.authentication_method
        ≡ ok bytes
      → Fills scope (upto_server_keep_alive p) bytes (upto_authentication_method p)
  unfolding read_property
  authentication_method_turn =
      string-Fills scope PropertyIdentifier.authentication_method
        (λ x. record (upto_server_keep_alive p) { authentication_method = x }) (λ s. refl)
        p.authentication_method w.authentication_method_fits

  pub authentication_data_turn :
      (bytes : List ℕ)
      → encode_optional_binary scope PropertyIdentifier.authentication_data p.authentication_data
        ≡ ok bytes
      → Fills scope (upto_authentication_method p) bytes (upto_authentication_data p)
  unfolding read_property
  authentication_data_turn =
      binary-Fills scope PropertyIdentifier.authentication_data
        (λ x. record (upto_authentication_method p) { authentication_data = x }) (λ s. refl)
        p.authentication_data (any_value p.authentication_data)

  pub response_information_turn :
      (bytes : List ℕ)
      → encode_optional_string scope PropertyIdentifier.response_information p.response_information
        ≡ ok bytes
      → Fills scope (upto_request_response_information p) bytes (upto_response_information p)
  unfolding read_property
  response_information_turn =
      string-Fills scope PropertyIdentifier.response_information
        (λ x. record (upto_request_response_information p) { response_information = x }) (λ s. refl)
        p.response_information w.response_information_fits

  pub server_reference_turn :
      (bytes : List ℕ)
      → encode_optional_string scope PropertyIdentifier.server_reference p.server_reference
        ≡ ok bytes
      → Fills scope (upto_response_information p) bytes (upto_server_reference p)
  unfolding read_property
  server_reference_turn =
      string-Fills scope PropertyIdentifier.server_reference
        (λ x. record (upto_response_information p) { server_reference = x }) (λ s. refl)
        p.server_reference w.server_reference_fits

  pub reason_string_turn :
      (bytes : List ℕ)
      → encode_optional_string scope PropertyIdentifier.reason_string p.reason_string ≡ ok bytes
      → Fills scope (upto_server_reference p) bytes (upto_reason_string p)
  unfolding read_property
  reason_string_turn =
      string-Fills scope PropertyIdentifier.reason_string
        (λ x. record (upto_server_reference p) { reason_string = x }) (λ s. refl) p.reason_string
        w.reason_string_fits
