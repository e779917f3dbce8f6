-- ===== src/Mqtt/V5/Properties/NumberTurns.antt =====
-- mqtt/src/v5/properties.rs: the turns of the numbers.
use yed_mq.Base.{List, Option, arith, none, ok, refl, some, true, u16_max, u32_max, ℕ, ◌≡◌, ◌≤◌}
use yed_mq.Mqtt.Packet.{Properties}
use yed_mq.Mqtt.V5.Properties.Identifier.{PropertyScope, PropertyIdentifier}
use yed_mq.Mqtt.V5.Properties.Parse.{at_most_one, not_zero, read_property}
use yed_mq.Mqtt.V5.Properties.Encode.{
  encode_maximum_qos, encode_optional_nonzero_u16, encode_optional_nonzero_u32, encode_optional_u16,
  encode_optional_u32, encode_optional_u8,
}
use yed_mq.Mqtt.V5.Properties.Rounds.{Fills, IfSome, tested}
use yed_mq.Mqtt.V5.Properties.Kinds.{
  any_value, nonzero_u16-Fills, nonzero_u32-Fills, small-Fills, u16-Fills, u32-Fills,
}
use yed_mq.Mqtt.V5.Properties.Encodable.{
  IsEncodable, upto_assigned_client_identifier, upto_maximum_packet_size, upto_maximum_qos,
  upto_message_expiry_interval, upto_payload_format_indicator, upto_reason_string,
  upto_receive_maximum, upto_request_problem_information, upto_server_keep_alive,
  upto_session_expiry_interval, upto_start, upto_subscription_identifier, upto_topic_alias,
  upto_topic_alias_maximum, upto_user_property, upto_will_delay_interval,
}

small_fits :
    (value : Option ℕ)
    → IfSome (λ v. v ≤ 1) value
    → IfSome (λ v. Unit {0} × (at_most_one v ≡ true)) value
small_fits none h = tt
small_fits (some v) h = (tt, ground arith)

module _ (scope : PropertyScope) (p : Properties) (w : IsEncodable p) where
  pub payload_format_indicator_turn :
      (bytes : List ℕ)
      → encode_optional_u8 scope PropertyIdentifier.payload_format_indicator
          p.payload_format_indicator
        ≡ ok bytes
      → Fills scope (upto_start p) bytes (upto_payload_format_indicator p)
  unfolding read_property
  payload_format_indicator_turn =
      small-Fills scope PropertyIdentifier.payload_format_indicator
        (λ x. record (upto_start p) { payload_format_indicator = x }) (λ s. refl)
        p.payload_format_indicator
        (small_fits p.payload_format_indicator w.payload_format_indicator_fits)

  pub message_expiry_interval_turn :
      (bytes : List ℕ)
      → encode_optional_u32 scope PropertyIdentifier.message_expiry_interval
          p.message_expiry_interval
        ≡ ok bytes
      → Fills scope (upto_payload_format_indicator p) bytes (upto_message_expiry_interval p)
  unfolding read_property
  message_expiry_interval_turn =
      u32-Fills scope PropertyIdentifier.message_expiry_interval
        (λ x. record (upto_payload_format_indicator p) { message_expiry_interval = x }) (λ s. refl)
        p.message_expiry_interval w.message_expiry_interval_fits

  pub session_expiry_interval_turn :
      (bytes : List ℕ)
      → encode_optional_u32 scope PropertyIdentifier.session_expiry_interval
          p.session_expiry_interval
        ≡ ok bytes
      → Fills scope (upto_subscription_identifier p) bytes (upto_session_expiry_interval p)
  unfolding read_property
  session_expiry_interval_turn =
      u32-Fills scope PropertyIdentifier.session_expiry_interval
        (λ x. record (upto_subscription_identifier p) { session_expiry_interval = x }) (λ s. refl)
        p.session_expiry_interval w.session_expiry_interval_fits

  pub server_keep_alive_turn :
      (bytes : List ℕ)
      → encode_optional_u16 scope PropertyIdentifier.server_keep_alive p.server_keep_alive
        ≡ ok bytes
      → Fills scope (upto_assigned_client_identifier p) bytes (upto_server_keep_alive p)
  unfolding read_property
  server_keep_alive_turn =
      u16-Fills scope PropertyIdentifier.server_keep_alive
        (λ x. record (upto_assigned_client_identifier p) { server_keep_alive = x }) (λ s. refl)
        p.server_keep_alive w.server_keep_alive_fits

  pub will_delay_interval_turn :
      (bytes : List ℕ)
      → encode_optional_u32 scope PropertyIdentifier.will_delay_interval p.will_delay_interval
        ≡ ok bytes
      → Fills scope (upto_request_problem_information p) bytes (upto_will_delay_interval p)
  unfolding read_property
  will_delay_interval_turn =
      u32-Fills scope PropertyIdentifier.will_delay_interval
        (λ x. record (upto_request_problem_information p) { will_delay_interval = x }) (λ s. refl)
        p.will_delay_interval w.will_delay_interval_fits

  pub receive_maximum_turn :
      (bytes : List ℕ)
      → encode_optional_nonzero_u16 scope PropertyIdentifier.receive_maximum p.receive_maximum
        ≡ ok bytes
      → Fills scope (upto_reason_string p) bytes (upto_receive_maximum p)
  unfolding read_property
  receive_maximum_turn bytes e =
      let (fits, e) =
        tested not_zero (λ v. v ≤ u16_max) p.receive_maximum _ _ w.receive_maximum_fits e in
      nonzero_u16-Fills scope PropertyIdentifier.receive_maximum
        (λ x. record (upto_reason_string p) { receive_maximum = x }) (λ s. refl) p.receive_maximum
        fits bytes e

  pub topic_alias_maximum_turn :
      (bytes : List ℕ)
      → encode_optional_u16 scope PropertyIdentifier.topic_alias_maximum p.topic_alias_maximum
        ≡ ok bytes
      → Fills scope (upto_receive_maximum p) bytes (upto_topic_alias_maximum p)
  unfolding read_property
  topic_alias_maximum_turn =
      u16-Fills scope PropertyIdentifier.topic_alias_maximum
        (λ x. record (upto_receive_maximum p) { topic_alias_maximum = x }) (λ s. refl)
        p.topic_alias_maximum w.topic_alias_maximum_fits

  pub topic_alias_turn :
      (bytes : List ℕ)
      → encode_optional_nonzero_u16 scope PropertyIdentifier.topic_alias p.topic_alias ≡ ok bytes
      → Fills scope (upto_topic_alias_maximum p) bytes (upto_topic_alias p)
  unfolding read_property
  topic_alias_turn bytes e =
      let (fits, e) = tested not_zero (λ v. v ≤ u16_max) p.topic_alias _ _ w.topic_alias_fits e in
      nonzero_u16-Fills scope PropertyIdentifier.topic_alias
        (λ x. record (upto_topic_alias_maximum p) { topic_alias = x }) (λ s. refl) p.topic_alias
        fits bytes e

  pub maximum_qos_turn :
      (bytes : List ℕ)
      → encode_maximum_qos scope p.maximum_qos ≡ ok bytes
      → Fills scope (upto_topic_alias p) bytes (upto_maximum_qos p)
  unfolding read_property
  maximum_qos_turn bytes e =
      let (fits, e) =
        tested at_most_one (λ v. Unit {0}) p.maximum_qos _ _ (any_value p.maximum_qos) e in
      small-Fills scope PropertyIdentifier.maximum_qos
        (λ x. record (upto_topic_alias p) { maximum_qos = x }) (λ s. refl) p.maximum_qos fits bytes
        e

  pub maximum_packet_size_turn :
      (bytes : List ℕ)
      → encode_optional_nonzero_u32 scope PropertyIdentifier.maximum_packet_size
          p.maximum_packet_size
        ≡ ok bytes
      → Fills scope (upto_user_property p) bytes (upto_maximum_packet_size p)
  unfolding read_property
  maximum_packet_size_turn bytes e =
      let (fits, e) =
        tested not_zero (λ v. v ≤ u32_max) p.maximum_packet_size _ _ w.maximum_packet_size_fits e in
      nonzero_u32-Fills scope PropertyIdentifier.maximum_packet_size
        (λ x. record (upto_user_property p) { maximum_packet_size = x }) (λ s. refl)
        p.maximum_packet_size fits bytes e
