-- ===== src/Mqtt/V5/Properties/FlagTurns.antt =====
-- mqtt/src/v5/properties.rs: the turns of the Booleans.
use yed_mq.Base.{List, ok, refl, ℕ, ◌≡◌}
use yed_mq.Mqtt.Packet.{Properties}
use yed_mq.Mqtt.V5.Properties.Identifier.{PropertyScope, PropertyIdentifier}
use yed_mq.Mqtt.V5.Properties.Parse.{read_property}
use yed_mq.Mqtt.V5.Properties.Encode.{encode_optional_bool}
use yed_mq.Mqtt.V5.Properties.Rounds.{Fills}
use yed_mq.Mqtt.V5.Properties.Kinds.{any_value, bool-Fills}
use yed_mq.Mqtt.V5.Properties.Encodable.{
  upto_authentication_data, upto_maximum_packet_size, upto_maximum_qos,
  upto_request_problem_information, upto_request_response_information, upto_retain_available,
  upto_shared_subscription_available, upto_subscription_identifier_available,
  upto_wildcard_subscription_available, upto_will_delay_interval,
}

module _ (scope : PropertyScope) (p : Properties) where
  pub request_problem_information_turn :
      (bytes : List ℕ)
      → encode_optional_bool scope PropertyIdentifier.request_problem_information
          p.request_problem_information
        ≡ ok bytes
      → Fills scope (upto_authentication_data p) bytes (upto_request_problem_information p)
  unfolding read_property
  request_problem_information_turn =
      bool-Fills scope PropertyIdentifier.request_problem_information
        (λ x. record (upto_authentication_data p) { request_problem_information = x }) (λ s. refl)
        p.request_problem_information (any_value p.request_problem_information)

  pub request_response_information_turn :
      (bytes : List ℕ)
      → encode_optional_bool scope PropertyIdentifier.request_response_information
          p.request_response_information
        ≡ ok bytes
      → Fills scope (upto_will_delay_interval p) bytes (upto_request_response_information p)
  unfolding read_property
  request_response_information_turn =
      bool-Fills scope PropertyIdentifier.request_response_information
        (λ x. record (upto_will_delay_interval p) { request_response_information = x }) (λ s. refl)
        p.request_response_information (any_value p.request_response_information)

  pub retain_available_turn :
      (bytes : List ℕ)
      → encode_optional_bool scope PropertyIdentifier.retain_available p.retain_available ≡ ok bytes
      → Fills scope (upto_maximum_qos p) bytes (upto_retain_available p)
  unfolding read_property
  retain_available_turn =
      bool-Fills scope PropertyIdentifier.retain_available
        (λ x. record (upto_maximum_qos p) { retain_available = x }) (λ s. refl) p.retain_available
        (any_value p.retain_available)

  pub wildcard_subscription_available_turn :
      (bytes : List ℕ)
      → encode_optional_bool scope PropertyIdentifier.wildcard_subscription_available
          p.wildcard_subscription_available
        ≡ ok bytes
      → Fills scope (upto_maximum_packet_size p) bytes (upto_wildcard_subscription_available p)
  unfolding read_property
  wildcard_subscription_available_turn =
      bool-Fills scope PropertyIdentifier.wildcard_subscription_available
        (λ x. record (upto_maximum_packet_size p) { wildcard_subscription_available = x })
        (λ s. refl) p.wildcard_subscription_available (any_value p.wildcard_subscription_available)

  pub subscription_identifier_available_turn :
      (bytes : List ℕ)
      → encode_optional_bool scope PropertyIdentifier.subscription_identifier_available
          p.subscription_identifier_available
        ≡ ok bytes
      → Fills scope
          (upto_wildcard_subscription_available p)
          bytes
          (upto_subscription_identifier_available p)
  unfolding read_property
  subscription_identifier_available_turn =
      bool-Fills scope PropertyIdentifier.subscription_identifier_available
        (λ x. record (upto_wildcard_subscription_available p) {
          subscription_identifier_available = x;
        })
        (λ s. refl) p.subscription_identifier_available
        (any_value p.subscription_identifier_available)

  pub shared_subscription_available_turn :
      (bytes : List ℕ)
      → encode_optional_bool scope PropertyIdentifier.shared_subscription_available
          p.shared_subscription_available
        ≡ ok bytes
      → Fills scope
          (upto_subscription_identifier_available p)
          bytes
          (upto_shared_subscription_available p)
  unfolding read_property
  shared_subscription_available_turn =
      bool-Fills scope PropertyIdentifier.shared_subscription_available
        (λ x. record (upto_subscription_identifier_available p) {
          shared_subscription_available = x;
        })
        (λ s. refl) p.shared_subscription_available (any_value p.shared_subscription_available)
