-- ===== src/Mqtt/V5/CodecTests.antt =====
-- mqtt/src/v5: the codec on concrete packets.
use yed_mq.Base.{
  List, [], arith, err, false, length, ok, refl, some, true, ℕ, ◌*◌, ◌++◌, ◌+◌, ◌<◌, ◌>>=◌, ◌↔◌,
  ◌∷◌, ◌≡◌, ◌≤◌, ◌⊎◌,
}
use yed_mq.Mqtt.Packet
use yed_mq.Mqtt.Packet.{
  Packet, Publish, v5_0, success, granted_qos0, default_properties, Properties, ReasonCode,
}
use yed_mq.Mqtt.V5.Primitives.{
  is_utf8, max_variable_byte_integer, parse_variable_byte_integer, variable_byte_integer_too_large,
}
use yed_mq.Mqtt.V5.FixedHeader
use yed_mq.Mqtt.V5.FixedHeader.{ControlPacketType, FixedHeader, header_of, as_u8}
use yed_mq.Mqtt.V5.FixedHeader.RoundTrip.{header_back, parse_bounds}
use yed_mq.Mqtt.V5.ReasonCode.{encode, decode_for_packet, validate_for_packet}
use yed_mq.Mqtt.V5.ReasonCode.RoundTrip.{
  as_read, decode_for_packet-encode, encode-decode_for_packet,
}
use yed_mq.Mqtt.V5.Properties.Identifier.{PropertyScope}
use yed_mq.Mqtt.V5.Properties.Parse
use yed_mq.Mqtt.V5.Properties.Encode
use yed_mq.Mqtt.V5.Properties.Encodable.{IsEncodable}
use yed_mq.Mqtt.V5.Properties.RoundTrip.{properties_back}
use yed_mq.Mqtt.V5.ConnectFlags
use yed_mq.Mqtt.V5.ConnectFlags.{ConnectFlags}
use yed_mq.Mqtt.V5.ConnectFlags.RoundTrip.{encode_iff_parse}
use yed_mq.Mqtt.V5.Primitives.Taken.{Taken}
use yed_mq.Mqtt.V5.Properties.Parse.{parse_loop}
use yed_mq.Mqtt.V5.Properties.Accepted.{IsAccepted, parse-IsAccepted}
use yed_mq.Mqtt.V5.Properties.Fuel.{Ends, enough_rounds}
use yed_mq.Mqtt.V5.Codec
use yed_mq.Mqtt.V5.Codec.Received.{IsSendablePacket, Received}
use yed_mq.Mqtt.V5.Codec.RoundTrip.{packet_back}

abbrev behind : List ℕ
behind = 192 ∷ 0 ∷ []

abbrev some_properties : Properties
some_properties = record default_properties {
  payload_format_indicator = some 1;
  content_type = some (b't' ∷ []);
  subscription_identifiers = 300 ∷ [];
  user_properties = (b'k' ∷ [], b'v' ∷ []) ∷ [];
}

abbrev some_properties_bytes : List ℕ
some_properties_bytes =
    16 ∷ 1 ∷ 1 ∷ 3 ∷ 0 ∷ 1 ∷ 116 ∷ 11 ∷ 172 ∷ 2 ∷ 38 ∷ 0 ∷ 1 ∷ 107 ∷ 0 ∷ 1 ∷ 118 ∷ []

some_properties_encoded :
    Encode.encode some_properties PropertyScope.publish ≡ ok some_properties_bytes
unfolding Encode.encode yed_mq.Mqtt.V5.Properties.Identifier.allowed_on
    yed_mq.Mqtt.V5.Primitives.encode_variable_byte_integer
    yed_mq.Mqtt.V5.Properties.Identifier.as_u32 yed_mq.Mqtt.V5.Primitives.encode_utf8_string
some_properties_encoded = refl

some_properties_fit : IsEncodable some_properties
unfolding is_utf8
some_properties_fit = record {
  payload_format_indicator_fits = omega arith;
  message_expiry_interval_fits = tt;
  content_type_fits = refl;
  response_topic_fits = tt;
  session_expiry_interval_fits = tt;
  assigned_client_identifier_fits = tt;
  server_keep_alive_fits = tt;
  authentication_method_fits = tt;
  will_delay_interval_fits = tt;
  response_information_fits = tt;
  server_reference_fits = tt;
  reason_string_fits = tt;
  receive_maximum_fits = tt;
  topic_alias_maximum_fits = tt;
  topic_alias_fits = tt;
  user_property_fits = ((refl, refl), tt);
  maximum_packet_size_fits = tt;
}

properties_back_example :
    Parse.parse (some_properties_bytes ++ behind) PropertyScope.publish
    ≡ ok (some_properties, behind)
properties_back_example =
    properties_back some_properties PropertyScope.publish behind some_properties_fit (omega arith)
      some_properties_encoded

abbrev hello : Publish
hello = record {
  protocol_version = v5_0;
  topic_name = b'a' ∷ [];
  payload = 1 ∷ [];
  qos = 1;
  retain = true;
  dup = false;
  packet_identifier = some 7;
  properties = some_properties;
  expires_at_unix_secs = some 1000;
}

abbrev hello_bytes : List ℕ
hello_bytes = 51 ∷ 23 ∷ 0 ∷ 1 ∷ 97 ∷ 0 ∷ 7 ∷ (some_properties_bytes ++ 1 ∷ [])

hello_encoded : Codec.encode (Packet.publish hello) ≡ ok hello_bytes
unfolding Codec.encode yed_mq.Mqtt.V5.Publish.encode yed_mq.Mqtt.V5.Primitives.encode_utf8_string
    Encode.encode yed_mq.Mqtt.V5.Properties.Identifier.allowed_on
    yed_mq.Mqtt.V5.Primitives.encode_variable_byte_integer
    yed_mq.Mqtt.V5.Properties.Identifier.as_u32 FixedHeader.new FixedHeader.encode
hello_encoded = refl

hello_fits : IsSendablePacket (Packet.publish hello)
unfolding is_utf8
hello_fits = (some_properties_fit, refl, omega arith)

packet_back_example :
    (r : Packet) × Received (Packet.publish hello) r
    × (Codec.parse (hello_bytes ++ behind) 100 ≡ ok (r, behind))
packet_back_example =
    packet_back 100 behind (omega arith) (Packet.publish hello) hello_fits hello_encoded

abbrev flags : ConnectFlags
flags = record {
  username = true;
  password = true;
  will_retain = false;
  will_qos = 1;
  will = true;
  clean_start = true;
}

encode_iff_parse_example :
    (ConnectFlags.encode flags ≡ ok 206) ↔ (ConnectFlags.parse 206 ≡ ok flags)
encode_iff_parse_example = encode_iff_parse flags 206 (omega arith)

flags_encoded : ConnectFlags.encode flags ≡ ok 206
unfolding ConnectFlags.encode ConnectFlags.parse
flags_encoded = refl

header_made :
    FixedHeader.new ControlPacketType.publish 3 300 ≡ ok (header_of ControlPacketType.publish 3 300)
unfolding FixedHeader.new
header_made = refl

header_back_example :
    ((bytes : List ℕ) × (FixedHeader.encode (header_of ControlPacketType.publish 3 300) ≡ ok bytes)
      × (300 ≤ max_variable_byte_integer)
      × (2 ≤ length bytes)
      × (length bytes ≤ 5)
      × (FixedHeader.parse (bytes ++ behind) 1000
          ≡ ok (header_of ControlPacketType.publish 3 300, behind)))
    ⊎ ((max_variable_byte_integer < 300)
        × (FixedHeader.encode (header_of ControlPacketType.publish 3 300)
            ≡ err (variable_byte_integer_too_large 300)))
header_back_example =
    header_back ControlPacketType.publish 3 300 1000 behind (omega arith) (omega arith) header_made

header_parsed :
    FixedHeader.parse (51 ∷ 23 ∷ []) 100 ≡ ok (header_of ControlPacketType.publish 3 23, [])
unfolding FixedHeader.parse parse_variable_byte_integer
header_parsed = refl

parse_bounds_example :
    (23 ≤ 100)
    × (1 ≤ 2)
    × (3 < 16)
    × (51 ≡ as_u8 ControlPacketType.publish * 16 + 3)
    × (FixedHeader.new ControlPacketType.publish 3 23
        ≡ ok (header_of ControlPacketType.publish 3 23))
parse_bounds_example = parse_bounds 51 100 (23 ∷ []) header_parsed

decode_for_packet-encode_example :
    decode_for_packet (encode granted_qos0) ControlPacketType.puback
    ≡ (validate_for_packet granted_qos0 ControlPacketType.puback >>= λ _. ok (as_read granted_qos0))
decode_for_packet-encode_example = decode_for_packet-encode granted_qos0 ControlPacketType.puback

code_decoded :
    decode_for_packet 146 ControlPacketType.pubrel ≡ ok ReasonCode.packet_identifier_not_found
unfolding decode_for_packet yed_mq.Mqtt.V5.ReasonCode.decode yed_mq.Mqtt.V5.ReasonCode.allowed
    Packet.as_u8
code_decoded = refl

encode-decode_for_packet_example :
    (encode ReasonCode.packet_identifier_not_found ≡ 146)
    × (validate_for_packet ReasonCode.packet_identifier_not_found ControlPacketType.pubrel ≡ ok tt)
encode-decode_for_packet_example =
    encode-decode_for_packet 146 ControlPacketType.pubrel code_decoded

some_properties_parsed :
    Parse.parse some_properties_bytes PropertyScope.publish ≡ ok (some_properties, [])
some_properties_parsed =
    properties_back some_properties PropertyScope.publish [] some_properties_fit (omega arith)
      some_properties_encoded

parse-IsAccepted_example :
    IsAccepted PropertyScope.publish some_properties × Taken some_properties_bytes []
parse-IsAccepted_example =
    parse-IsAccepted some_properties_bytes PropertyScope.publish (omega arith)
      some_properties_parsed

enough_rounds_example :
    Ends PropertyScope.publish
      (1 ∷ 1 ∷ [])
      default_properties
      (parse_loop 50 PropertyScope.publish (1 ∷ 1 ∷ []) default_properties)
enough_rounds_example =
    enough_rounds 50 PropertyScope.publish (1 ∷ 1 ∷ []) default_properties (omega arith)
