-- ===== src/Mqtt/V5/Properties/RoundTrip.antt =====
-- mqtt/src/v5/properties.rs: properties that are written are read back.
use yed_mq.Base.{
  List, [], ap, append-nil, append_assoc, arith, drop-length-append, leb, length, length-append, ok,
  ok_injective, refl, suc, take-length-append, through, true, zero, ℕ, ◌%◌, ◌++◌, ◌<◌, ◌^◌, ◌∙◌,
  ◌∷◌, ◌≡◌,
}
use yed_mq.Mqtt.Packet.{Properties, default_properties}
use yed_mq.Mqtt.V5.Primitives.{encode_variable_byte_integer}
use yed_mq.Mqtt.V5.Primitives.Reading.{encode_inv, leb-append, varint-Reads}
use yed_mq.Mqtt.V5.Properties.Identifier.{PropertyScope}
use yed_mq.Mqtt.V5.Properties.Parse.{parse, parse_loop}
use yed_mq.Mqtt.V5.Properties.Encode.{Written, body_parts, encode, write_all}
use yed_mq.Mqtt.V5.Properties.Rounds.{Fills, Fills-append, Fills-nil}
use yed_mq.Mqtt.V5.Properties.Encodable.{IsEncodable}
use yed_mq.Mqtt.V5.Properties.NumberTurns.{
  maximum_packet_size_turn, maximum_qos_turn, message_expiry_interval_turn,
  payload_format_indicator_turn, receive_maximum_turn, server_keep_alive_turn,
  session_expiry_interval_turn, topic_alias_maximum_turn, topic_alias_turn,
  will_delay_interval_turn,
}
use yed_mq.Mqtt.V5.Properties.TextTurns.{
  assigned_client_identifier_turn, authentication_data_turn, authentication_method_turn,
  content_type_turn, correlation_data_turn, reason_string_turn, response_information_turn,
  response_topic_turn, server_reference_turn,
}
use yed_mq.Mqtt.V5.Properties.FlagTurns.{
  request_problem_information_turn, request_response_information_turn, retain_available_turn,
  shared_subscription_available_turn, subscription_identifier_available_turn,
  wildcard_subscription_available_turn,
}
use yed_mq.Mqtt.V5.Properties.ListTurns.{subscription_identifier_turn, user_property_turn}

next :
    (scope : PropertyScope) (p q r : Properties) (m : Written) (ms : List Written)
    → ((bytes : List ℕ) → m ≡ ok bytes → Fills scope p bytes q)
    → ((bytes : List ℕ) → write_all ms ≡ ok bytes → Fills scope q bytes r)
    → (bytes : List ℕ) → write_all (m ∷ ms) ≡ ok bytes
    → Fills scope p bytes r
unfolding write_all
next scope p q r m ms f g bytes e = through m _ e λ first written e.
    through (write_all ms) _ e λ more written' e.
      rw (← ok_injective e)
        (Fills-append scope p q r first more (f first written) (g more written'))

done :
    (scope : PropertyScope) (p : Properties) (bytes : List ℕ)
    → write_all [] ≡ ok bytes
    → Fills scope p bytes p
unfolding write_all
done scope p bytes e = rw (← ok_injective e) (Fills-nil scope p)

loop_end : (fuel : ℕ) (scope : PropertyScope) (p : Properties) → parse_loop fuel scope [] p ≡ ok p
unfolding parse_loop
loop_end zero scope p = refl
loop_end (suc fuel) scope p = refl

module _ (scope : PropertyScope) (p : Properties) (w : IsEncodable p) where
  body-Fills :
      (bytes : List ℕ)
      → write_all (body_parts p scope) ≡ ok bytes
      → Fills scope default_properties bytes p
  body-Fills = next scope _ _ _ _ _ (payload_format_indicator_turn scope p w) (
      next scope _ _ _ _ _ (message_expiry_interval_turn scope p w) (
        next scope _ _ _ _ _ (content_type_turn scope p w) (
          next scope _ _ _ _ _ (response_topic_turn scope p w) (
            next scope _ _ _ _ _ (correlation_data_turn scope p w) (
              next scope _ _ _ _ _ (subscription_identifier_turn scope p w) (
                next scope _ _ _ _ _ (session_expiry_interval_turn scope p w) (
                  next scope _ _ _ _ _ (assigned_client_identifier_turn scope p w) (
                    next scope _ _ _ _ _ (server_keep_alive_turn scope p w) (
                      next scope _ _ _ _ _ (authentication_method_turn scope p w) (
                        next scope _ _ _ _ _ (authentication_data_turn scope p w) (
                          next scope _ _ _ _ _ (request_problem_information_turn scope p) (
                            next scope _ _ _ _ _ (will_delay_interval_turn scope p w) (
                              next scope _ _ _ _ _ (request_response_information_turn scope p) (
                                next scope _ _ _ _ _ (response_information_turn scope p w) (
                                  next scope _ _ _ _ _ (server_reference_turn scope p w) (
                                    next scope _ _ _ _ _ (reason_string_turn scope p w) (
                                      next scope _ _ _ _ _ (receive_maximum_turn scope p w) (
                                        next scope _ _ _ _ _ (topic_alias_maximum_turn scope p w) (
                                          next scope _ _ _ _ _ (topic_alias_turn scope p w) (
                                            next scope _ _ _ _ _ (maximum_qos_turn scope p w) (
                                              next scope _ _ _ _ _ (retain_available_turn scope p) (
                                                next scope _ _ _ _ _ (user_property_turn scope p w)
                                                  (next scope _ _ _ _ _
                                                    (maximum_packet_size_turn scope p w)
                                                    (next scope _ _ _ _ _
                                                      (wildcard_subscription_available_turn scope p)
                                                      (next scope _ _ _ _ _
                                                        (subscription_identifier_available_turn
                                                          scope p)
                                                        (next scope _ _ _ _ _
                                                          (shared_subscription_available_turn scope
                                                            p)
                                                          (done scope p)))))))))))))))))))))))))))

pub encode_pos :
    (p : Properties) (scope : PropertyScope) {bytes : List ℕ}
    → encode p scope ≡ ok bytes
    → 0 < length bytes
unfolding encode
encode_pos p scope e = through (write_all (body_parts p scope)) _ e λ body written e.
    through (encode_variable_byte_integer (length body % 2 ^ 32)) _ e λ size sized e. omega (
      arith,
      encode_inv (length body % 2 ^ 32) sized,
      length-append size body,
      ap length (ok_injective e),
    )

-- Properties that their types can hold, with a payload format indicator of 0 or 1, and that are encoded
-- into fewer than 2 ^ 32 bytes, are read back as they were in the same scope, and what follows them is
-- left over.
pub properties_back :
    (p : Properties) (scope : PropertyScope) (rest : List ℕ) {bytes : List ℕ}
    → IsEncodable p
    → length bytes < 2 ^ 32
    → encode p scope ≡ ok bytes
    → parse (bytes ++ rest) scope ≡ ok (p, rest)
unfolding encode parse
properties_back p scope rest {bytes} w short e =
    through (write_all (body_parts p scope)) _ e λ body written e.
      through (encode_variable_byte_integer (length body % 2 ^ 32)) _ e λ size sized e.
        let joined : size ++ body ≡ bytes = ok_injective e in
        let below : length body < 2 ^ 32 =
          omega (arith, length-append size body, ap length joined, short) in
        let same : length body % 2 ^ 32 ≡ length body = omega (arith, below) in
        let (left, enough, run) =
          body-Fills scope p w body written (length body) []
            (omega (arith, ap length (append-nil body))) in
        let enough' : leb (length body) (length (body ++ rest)) ≡ true = leb-append body rest in
        let run' : parse_loop (length body) scope body default_properties ≡ ok p =
          rw (append-nil body) at run ∙ loop_end left scope p in
        rw
          (
            ← joined,
            append_assoc size body rest,
            varint-Reads (length body % 2 ^ 32) sized (body ++ rest),
            same,
            enough',
            take-length-append body rest,
            run',
            drop-length-append body rest,
          )
          refl
