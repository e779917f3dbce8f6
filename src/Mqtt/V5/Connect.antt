-- ===== src/Mqtt/V5/Connect.antt =====
-- mqtt/src/v5/connect.rs: the CONNECT packet.
pub mod RoundTrip
use yed_mq.Base.{
  Bool, List, Option, Result, Text, [], codes, ensure, false, is_some, none, not, ok, some, text_eq,
  true, ℕ, ◌&&◌, ◌++◌, ◌==◌, ◌>>=◌, ◌>>◌, ◌∷◌,
}
use yed_mq.Mqtt.Packet
use yed_mq.Mqtt.Packet.{
  Connect, Packet, Properties, Will, connect, malformed_packet, protocol_version, v5_0,
}
use yed_mq.Mqtt.V5.Primitives.{
  Mqtt5ParseError, Parsed, as_utf8, encode_binary, encode_utf8_string, malformed_packet,
  parse_binary, parse_u16, parse_u8, parse_utf8_string, put_u16,
}
use yed_mq.Mqtt.V5.FixedHeader
use yed_mq.Mqtt.V5.FixedHeader.{ControlPacketType}
use yed_mq.Mqtt.V5.Properties.Identifier.{PropertyScope}
use yed_mq.Mqtt.V5.Properties.Parse
use yed_mq.Mqtt.V5.Properties.Parse.{not_zero}
use yed_mq.Mqtt.V5.Properties.Encode
use yed_mq.Mqtt.V5.Properties.Encode.{Written}
use yed_mq.Mqtt.V5.Frame.{framed, header_for, is_empty, is_none, is_v5, split_body}
use yed_mq.Mqtt.V5.Normalized.{normalized_properties}
use yed_mq.Mqtt.V5.ConnectFlags
use yed_mq.Mqtt.V5.ConnectFlags.{ConnectFlags}

abbrev pub protocol_name : Text
protocol_name = b'M' ∷ b'Q' ∷ b'T' ∷ b'T' ∷ []

unfoldable pub reject_enhanced_auth : Properties → Result Mqtt5ParseError (Unit {0})
reject_enhanced_auth properties =
    ensure (is_none properties.authentication_method && is_none properties.authentication_data)
      (malformed_packet (codes "enhanced authentication is not supported"))

unfoldable pub normalized_connect_properties : Connect → Result Mqtt5ParseError Properties
unfolding normalized_properties
normalized_connect_properties packet =
    normalized_properties (codes "CONNECT session expiry interval disagrees with properties")
      packet.session_expiry_interval packet.properties

-- A part that the flags announce.
unfoldable pub parse_if : {A : Type 0} → Bool → (List ℕ → Parsed A) → List ℕ → Parsed (Option A)
parse_if false item input = ok (none, input)
parse_if true item input = do (x, input) ← item input; ok (some x, input)

unfoldable pub parse_will : ConnectFlags → List ℕ → Parsed Will
parse_will flags input = do
  (will_properties, input) ← Parse.parse input PropertyScope.will
  (topic, input) ← parse_utf8_string input
  (payload, input) ← parse_binary input
  ok (
    record {
      topic = topic;
      payload = payload;
      qos = flags.will_qos;
      retain = flags.will_retain;
      properties = will_properties;
    },
    input,
  )

unfoldable pub parse_password : List ℕ → Parsed Text
parse_password input = as_utf8 (parse_binary input)

unfoldable pub parse_body : List ℕ → Result Mqtt5ParseError Connect
unfolding reject_enhanced_auth parse_if parse_will parse_password text_eq parse_u8
parse_body input = do
  (name, input) ← parse_utf8_string input
  ensure (text_eq name protocol_name)
      (malformed_packet (codes "CONNECT protocol name must be MQTT"))
  (protocol_level, input) ← parse_u8 input (codes "CONNECT protocol level")
  ensure (protocol_level == 5) (malformed_packet (codes "CONNECT protocol level must be 5"))
  (value, input) ← parse_u8 input (codes "CONNECT flags")
  flags ← ConnectFlags.parse value
  (keep_alive, input) ← parse_u16 input (codes "CONNECT keep alive")
  (properties, input) ← Parse.parse input PropertyScope.connect
  reject_enhanced_auth properties
  (client_id, input) ← parse_utf8_string input
  (will, input) ← parse_if flags.will (parse_will flags) input
  (username, input) ← parse_if flags.username parse_utf8_string input
  (password, input) ← parse_if flags.password parse_password input
  ensure (is_empty input) (malformed_packet (codes "CONNECT payload has trailing bytes"))
  ok (record {
    protocol_version = v5_0;
    client_id = client_id;
    username = username;
    password = password;
    keep_alive = keep_alive;
    clean_start = flags.clean_start;
    session_expiry_interval = properties.session_expiry_interval;
    will = will;
    properties = properties;
  })

unfoldable pub parse : List ℕ → ℕ → Parsed Packet
unfolding parse_body header_for split_body
parse input max_message_size = do
  (fixed_header, input) ←
      header_for ControlPacketType.connect (codes "expected CONNECT packet") input max_message_size
  (body, input) ← split_body (codes "CONNECT body") fixed_header input
  packet ← parse_body body
  ok (Packet.connect packet, input)

unfoldable pub write_if : {A : Type 0} → (A → Written) → Option A → Written
write_if write none = ok []
write_if write (some x) = write x

unfoldable pub write_will : Will → Written
write_will will = do
  properties ← Encode.encode will.properties PropertyScope.will
  topic ← encode_utf8_string will.topic
  payload ← encode_binary will.payload
  ok (properties ++ (topic ++ payload))

abbrev pub will_qos_of : Option Will → ℕ
will_qos_of none = 0
will_qos_of (some will) = will.qos

abbrev pub will_retain_of : Option Will → Bool
will_retain_of none = false
will_retain_of (some will) = will.retain

abbrev pub flags_of : Connect → ConnectFlags
flags_of packet = record {
  username = is_some packet.username;
  password = is_some packet.password;
  will_retain = will_retain_of packet.will;
  will_qos = will_qos_of packet.will;
  will = is_some packet.will;
  clean_start = packet.clean_start;
}

unfoldable pub encode : Connect → Written
unfolding framed normalized_connect_properties reject_enhanced_auth write_if write_will
encode packet = do
  ensure (is_v5 packet.protocol_version) (malformed_packet (codes "CONNECT packet is not MQTT 5.0"))
  properties ← normalized_connect_properties packet
  reject_enhanced_auth properties
  name ← encode_utf8_string protocol_name
  flags ← ConnectFlags.encode (flags_of packet)
  properties ← Encode.encode properties PropertyScope.connect
  client_id ← encode_utf8_string packet.client_id
  will ← write_if write_will packet.will
  username ← write_if encode_utf8_string packet.username
  password ← write_if encode_binary packet.password
  framed ControlPacketType.connect 0 (
      name
      ++ (5
          ∷ flags
          ∷ (put_u16 packet.keep_alive
              ++ (properties ++ (client_id ++ (will ++ (username ++ password)))))))
