-- ===== src/Mqtt/V5/Normalized.antt =====
-- mqtt/src/v5/connect.rs, disconnect.rs: the session expiry interval of a packet and of its properties.
pub mod Fits
use yed_mq.Base.{Option, Result, Text, ensure, none, ok, some, ℕ, ◌==◌, ◌>>◌}
use yed_mq.Mqtt.Packet
use yed_mq.Mqtt.Packet.{Properties, malformed_packet}
use yed_mq.Mqtt.V5.Primitives.{Mqtt5ParseError, malformed_packet}
use yed_mq.Mqtt.V5.FixedHeader
use yed_mq.Mqtt.V5.FixedHeader.{ControlPacketType}
use yed_mq.Mqtt.V5.ReasonCode.{decode, allowed, decode_for_packet, validate_for_packet}
use yed_mq.Mqtt.V5.ReasonCode
use yed_mq.Mqtt.V5.Properties.Identifier.{PropertyScope}
use yed_mq.Mqtt.V5.Properties.Parse
use yed_mq.Mqtt.V5.Properties.Parse.{not_zero}
use yed_mq.Mqtt.V5.Properties.Encode
use yed_mq.Mqtt.V5.Properties.Encode.{Written}
use yed_mq.Mqtt.V5.Frame.{}

-- An interval of the packet that the properties do not hold is added to them.
unfoldable pub agree : Text → Option ℕ → Option ℕ → Properties → Result Mqtt5ParseError Properties
agree disagrees (some packet_value) (some property_value) properties =
    ensure (packet_value == property_value) (malformed_packet disagrees) >> ok properties
agree disagrees (some packet_value) none properties =
    ok (record properties { session_expiry_interval = some packet_value })
agree disagrees none _ properties = ok properties

unfoldable pub normalized_properties :
    Text → Option ℕ → Properties → Result Mqtt5ParseError Properties
unfolding agree
normalized_properties disagrees interval properties =
    agree disagrees interval properties.session_expiry_interval properties
