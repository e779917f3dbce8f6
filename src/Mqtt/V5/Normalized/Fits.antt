-- ===== src/Mqtt/V5/Normalized/Fits.antt =====
-- mqtt/src/v5/connect.rs, disconnect.rs: normalized properties can be encoded.
use yed_mq.Base.{
  Option, Text, none, ok, ok_injective, passed, some, subst, u32_max, ℕ, ◌==◌, ◌≡◌, ◌≤◌,
}
use yed_mq.Mqtt.Packet.{Properties}
use yed_mq.Mqtt.V5.Properties.Rounds.{IfSome}
use yed_mq.Mqtt.V5.Properties.Encodable.{IsEncodable}
use yed_mq.Mqtt.V5.Normalized.{agree, normalized_properties}

with_interval :
    (p : Properties) (n : ℕ)
    → n ≤ u32_max
    → IsEncodable p
    → IsEncodable (record p { session_expiry_interval = some n })
with_interval p n h w = record {
  payload_format_indicator_fits = w.payload_format_indicator_fits;
  message_expiry_interval_fits = w.message_expiry_interval_fits;
  content_type_fits = w.content_type_fits;
  response_topic_fits = w.response_topic_fits;
  session_expiry_interval_fits = h;
  assigned_client_identifier_fits = w.assigned_client_identifier_fits;
  server_keep_alive_fits = w.server_keep_alive_fits;
  authentication_method_fits = w.authentication_method_fits;
  will_delay_interval_fits = w.will_delay_interval_fits;
  response_information_fits = w.response_information_fits;
  server_reference_fits = w.server_reference_fits;
  reason_string_fits = w.reason_string_fits;
  receive_maximum_fits = w.receive_maximum_fits;
  topic_alias_maximum_fits = w.topic_alias_maximum_fits;
  topic_alias_fits = w.topic_alias_fits;
  user_property_fits = w.user_property_fits;
  maximum_packet_size_fits = w.maximum_packet_size_fits;
}

agree-IsEncodable :
    (disagrees : Text) (interval own : Option ℕ) (p : Properties) {q : Properties}
    → IfSome (λ n. n ≤ u32_max) interval
    → IsEncodable p
    → agree disagrees interval own p ≡ ok q
    → IsEncodable q
unfolding agree
agree-IsEncodable disagrees none own p h w e = subst IsEncodable (ok_injective e) w
agree-IsEncodable disagrees (some n) none p h w e =
    subst IsEncodable (ok_injective e) (with_interval p n h w)
agree-IsEncodable disagrees (some n) (some m) p h w e =
    passed (n == m) _ _ e λ same e. subst IsEncodable (ok_injective e) w

-- An interval that is a `u32` leaves them so.
pub normalized-IsEncodable :
    (disagrees : Text) (interval : Option ℕ) (p : Properties) {q : Properties}
    → IfSome (λ n. n ≤ u32_max) interval
    → IsEncodable p
    → normalized_properties disagrees interval p ≡ ok q
    → IsEncodable q
unfolding normalized_properties
normalized-IsEncodable disagrees interval p h w e =
    agree-IsEncodable disagrees interval p.session_expiry_interval p h w e
