-- ===== src/Mqtt/V5/Properties/ListTurns.antt =====
-- mqtt/src/v5/properties.rs: the turns of the properties that a packet may repeat.
use yed_mq.Base.{All, List, [], map, ok, ok_injective, passed, through, ℕ, ◌++◌, ◌∷◌, ◌≡◌}
use yed_mq.Mqtt.Packet.{Properties}
use yed_mq.Mqtt.V5.Primitives.{encode_utf8_string, encode_variable_byte_integer}
use yed_mq.Mqtt.V5.Properties.Identifier.{PropertyScope, PropertyIdentifier}
use yed_mq.Mqtt.V5.Properties.Parse.{not_zero}
use yed_mq.Mqtt.V5.Properties.Encode.{
  encode_subscription_identifier, encode_user_property, write_all, write_property_id,
}
use yed_mq.Mqtt.V5.Properties.Rounds.{Fills, each-Fills, property-Fills}
use yed_mq.Mqtt.V5.Properties.Kinds.{subscription_identifier-Reads, user_property-Reads}
use yed_mq.Mqtt.V5.Primitives.Taken.{Utf8}
use yed_mq.Mqtt.V5.Properties.Encodable.{
  IsEncodable, upto_correlation_data, upto_retain_available, upto_subscription_identifier,
  upto_user_property,
}

All-any : {A : Type 0} (xs : List A) → All (λ x. Unit {0}) xs
All-any [] = tt
All-any (x ∷ xs) = (tt, All-any xs)

module _ (scope : PropertyScope) (p : Properties) (w : IsEncodable p) where
  pub subscription_identifier_turn :
      (bytes : List ℕ)
      → write_all (map (encode_subscription_identifier scope) p.subscription_identifiers) ≡ ok bytes
      → Fills scope (upto_correlation_data p) bytes (upto_subscription_identifier p)
  unfolding encode_subscription_identifier
  subscription_identifier_turn =
      each-Fills (encode_subscription_identifier scope) scope
        (λ x. record (upto_correlation_data p) { subscription_identifiers = x }) (λ v. Unit {0})
        (λ seen value bytes fits e. passed (not_zero value) _ _ e λ good e.
          through (write_property_id scope PropertyIdentifier.subscription_identifier) _ e
            λ code coded e. through (encode_variable_byte_integer value) _ e λ more written e.
              rw (← ok_injective e) (
                property-Fills scope PropertyIdentifier.subscription_identifier _ _ more coded (
                  subscription_identifier-Reads
                    (record (upto_correlation_data p) { subscription_identifiers = seen }) value
                    more good written)))
        [] p.subscription_identifiers (All-any p.subscription_identifiers)

  pub user_property_turn :
      (bytes : List ℕ)
      → write_all (map (encode_user_property scope) p.user_properties) ≡ ok bytes
      → Fills scope (upto_retain_available p) bytes (upto_user_property p)
  unfolding encode_user_property
  user_property_turn =
      each-Fills (encode_user_property scope) scope
        (λ x. record (upto_retain_available p) { user_properties = x })
        (λ kv. Utf8 (kv.0) × Utf8 (kv.1))
        (λ seen value bytes fits e.
          through (write_property_id scope PropertyIdentifier.user_property) _ e λ code coded e.
            through (encode_utf8_string (value.0)) _ e λ first written e.
              through (encode_utf8_string (value.1)) _ e λ second written' e.
                rw (← ok_injective e) (
                  property-Fills scope PropertyIdentifier.user_property _ _ (first ++ second) coded
                    (user_property-Reads
                      (record (upto_retain_available p) { user_properties = seen }) (value.0)
                      (value.1) first second written written' (fits.0) (fits.1))))
        [] p.user_properties w.user_property_fits
