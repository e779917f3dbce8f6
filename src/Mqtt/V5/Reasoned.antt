-- ===== src/Mqtt/V5/Reasoned.antt =====
-- mqtt/src/v5/ack.rs, auth.rs, disconnect.rs: a reason code and properties, both of which may be left out.
pub mod RoundTrip
use yed_mq.Base.{Bool, List, Result, Text, [], ensure, if◌then◌else◌, ok, ℕ, ◌&&◌, ◌>>=◌, ◌>>◌, ◌∷◌}
use yed_mq.Mqtt.Packet
use yed_mq.Mqtt.Packet.{Properties, ReasonCode, default_properties, malformed_packet}
use yed_mq.Mqtt.V5.Primitives.{Mqtt5ParseError, malformed_packet, parse_u8}
use yed_mq.Mqtt.V5.FixedHeader
use yed_mq.Mqtt.V5.FixedHeader.{ControlPacketType}
use yed_mq.Mqtt.V5.ReasonCode.{encode}
use yed_mq.Mqtt.V5.Properties.Identifier.{PropertyScope}
use yed_mq.Mqtt.V5.Properties.Parse
use yed_mq.Mqtt.V5.Properties.Parse.{not_zero}
use yed_mq.Mqtt.V5.Properties.Encode
use yed_mq.Mqtt.V5.Properties.Encode.{Written}
use yed_mq.Mqtt.V5.Frame.{is_default, is_empty}

-- Nothing stands for the code `nothing` without properties, a code alone has no properties.
unfoldable pub read_reason :
    (ℕ → Result Mqtt5ParseError ReasonCode)
    → ReasonCode
    → PropertyScope
    → Text
    → Text
    → List ℕ
    → Result Mqtt5ParseError (ReasonCode × Properties)
unfolding parse_u8
read_reason decode_code nothing scope context trailing [] = ok (nothing, default_properties)
read_reason decode_code nothing scope context trailing (b ∷ input) = do
  (value, input) ← parse_u8 (b ∷ input) context
  reason_code ← decode_code value
  (properties, input) ←
      if is_empty input then ok (default_properties, input) else Parse.parse input scope
  ensure (is_empty input) (malformed_packet trailing)
  ok (reason_code, properties)

-- `omitted` says whether the reason code may be left out.
unfoldable pub write_reason : PropertyScope → Bool → ReasonCode → Properties → Written
unfolding is_default
write_reason scope omitted reason_code properties =
    if omitted && is_default properties then ok [] else do
      more ← if is_default properties then ok [] else Encode.encode properties scope
      ok (encode reason_code ∷ more)
