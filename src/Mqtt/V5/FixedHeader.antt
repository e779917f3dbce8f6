-- ===== src/Mqtt/V5/FixedHeader.antt =====
-- mqtt/src/v5/fixed_header.rs: the fixed header of a control packet. Flags are a byte, read by division.
pub mod RoundTrip
use yed_mq.Base.{
  ℕ, ◌+◌, ◌*◌, ◌/◌, ◌%◌, Bool, not, List, [], ◌∷◌, leb, ◌==◌, if◌then◌else◌, Text, codes, Result,
  ok, err, ◌>>=◌, ◌>>◌, ensure,
}
use yed_mq.Mqtt.V5.Primitives.{
  Mqtt5ParseError, incomplete, unsupported_packet_type, invalid_fixed_header_flags,
  remaining_length_exceeded, Parsed, parse_variable_byte_integer, encode_variable_byte_integer,
}

pub data ControlPacketType : Type 0 where
  connect connack publish puback pubrec pubrel pubcomp subscribe suback : ControlPacketType
  unsubscribe unsuback pingreq pingresp disconnect auth : ControlPacketType

unfoldable pub as_u8 : ControlPacketType → ℕ
as_u8 connect = 1
as_u8 connack = 2
as_u8 publish = 3
as_u8 puback = 4
as_u8 pubrec = 5
as_u8 pubrel = 6
as_u8 pubcomp = 7
as_u8 subscribe = 8
as_u8 suback = 9
as_u8 unsubscribe = 10
as_u8 unsuback = 11
as_u8 pingreq = 12
as_u8 pingresp = 13
as_u8 disconnect = 14
as_u8 auth = 15

unfoldable pub name : ControlPacketType → Text
unfolding codes
name connect = codes "CONNECT"
name connack = codes "CONNACK"
name publish = codes "PUBLISH"
name puback = codes "PUBACK"
name pubrec = codes "PUBREC"
name pubrel = codes "PUBREL"
name pubcomp = codes "PUBCOMP"
name subscribe = codes "SUBSCRIBE"
name suback = codes "SUBACK"
name unsubscribe = codes "UNSUBSCRIBE"
name unsuback = codes "UNSUBACK"
name pingreq = codes "PINGREQ"
name pingresp = codes "PINGRESP"
name disconnect = codes "DISCONNECT"
name auth = codes "AUTH"

unfoldable pub try_from : ℕ → Result Mqtt5ParseError ControlPacketType
try_from value =
    if value == 1
    then ok connect
    else if value == 2
    then ok connack
    else if value == 3
    then ok publish
    else if value == 4
    then ok puback
    else if value == 5
    then ok pubrec
    else if value == 6
    then ok pubrel
    else if value == 7
    then ok pubcomp
    else if value == 8
    then ok subscribe
    else if value == 9
    then ok suback
    else if value == 10
    then ok unsubscribe
    else if value == 11
    then ok unsuback
    else if value == 12
    then ok pingreq
    else if value == 13
    then ok pingresp
    else if value == 14
    then ok disconnect
    else if value == 15
    then ok auth
    else err (unsupported_packet_type value)

pub record FixedHeader : Type 0 where
  pub packet_type : ControlPacketType
  pub flags : ℕ
  pub dup : Bool
  pub qos : ℕ
  pub retain : Bool
  pub remaining_length : ℕ

abbrev pub header_of : ControlPacketType → ℕ → ℕ → FixedHeader
header_of packet_type flags remaining_length = record {
  packet_type = packet_type;
  flags = flags;
  dup = not (flags / 8 % 2 == 0);
  qos = flags / 2 % 4;
  retain = not (flags % 2 == 0);
  remaining_length = remaining_length;
}

unfoldable pub valid_flags : ControlPacketType → ℕ → Bool
valid_flags publish flags = not (flags / 2 % 4 == 3)
valid_flags pubrel flags = flags == 2
valid_flags subscribe flags = flags == 2
valid_flags unsubscribe flags = flags == 2
valid_flags _ flags = flags == 0

unfoldable pub validate_flags : ControlPacketType → ℕ → Result Mqtt5ParseError (Unit {0})
unfolding valid_flags
validate_flags packet_type flags =
    ensure (valid_flags packet_type flags) (invalid_fixed_header_flags (as_u8 packet_type) flags)

unfoldable pub new : ControlPacketType → ℕ → ℕ → Result Mqtt5ParseError FixedHeader
unfolding validate_flags
new packet_type flags remaining_length = do
  validate_flags packet_type flags
  ok (header_of packet_type flags remaining_length)

unfoldable pub encode : FixedHeader → Result Mqtt5ParseError (List ℕ)
unfolding validate_flags as_u8
encode h = do
  validate_flags h.packet_type h.flags
  remaining_length ← encode_variable_byte_integer h.remaining_length
  ok ((as_u8 h.packet_type * 16 + h.flags % 16) ∷ remaining_length)

unfoldable pub parse : List ℕ → ℕ → Parsed FixedHeader
unfolding try_from validate_flags
parse [] max_message_size = err (incomplete (codes "fixed header"))
parse (first_byte ∷ input) max_message_size = do
  packet_type ← try_from (first_byte / 16)
  validate_flags packet_type (first_byte % 16)
  (remaining_length, input) ← parse_variable_byte_integer input
  ensure (leb remaining_length max_message_size)
      (remaining_length_exceeded remaining_length max_message_size)
  ok (header_of packet_type (first_byte % 16) remaining_length, input)
