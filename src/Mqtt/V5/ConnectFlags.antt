-- ===== src/Mqtt/V5/ConnectFlags.antt =====
-- mqtt/src/v5/connect.rs: the flags of CONNECT, a byte.
pub mod RoundTrip
use yed_mq.Base.{
  Bool, Result, codes, ensure, if◌then◌else◌, leb, not, ok, ℕ, ◌%◌, ◌&&◌, ◌*◌, ◌+◌, ◌/◌, ◌==◌,
  ◌>>=◌, ◌>>◌, ◌||◌,
}
use yed_mq.Mqtt.V5.Primitives.{Mqtt5ParseError, malformed_packet}

pub record ConnectFlags : Type 0 where
  pub username : Bool
  pub password : Bool
  pub will_retain : Bool
  pub will_qos : ℕ
  pub will : Bool
  pub clean_start : Bool

-- Whether the bit of this weight is set.
abbrev pub bit_set : ℕ → ℕ → Bool
bit_set value weight = not (value / weight % 2 == 0)

-- The fields that a byte holds.
abbrev pub bits_of : ℕ → ConnectFlags
bits_of value = record {
  username = bit_set value 128;
  password = bit_set value 64;
  will_retain = bit_set value 32;
  will_qos = value / 8 % 4;
  will = bit_set value 4;
  clean_start = bit_set value 2;
}

unfoldable pub parse : ℕ → Result Mqtt5ParseError ConnectFlags
parse value = do
  ensure (value % 2 == 0) (malformed_packet (codes "CONNECT reserved flag bit must be zero"))
  let flags = bits_of value
  ensure (not (flags.password && not flags.username))
      (malformed_packet (codes "CONNECT password flag requires username flag"))
  ensure (not (flags.will_qos == 3)) (malformed_packet (codes "CONNECT will QoS must not be 3"))
  ensure (not (not flags.will && (not (flags.will_qos == 0) || flags.will_retain)))
      (malformed_packet (codes "CONNECT will QoS and retain require will flag"))
  ok flags

abbrev pub bit : Bool → ℕ → ℕ
bit b weight = if b then weight else 0

-- The byte of the flags; the parser has the last word on it.
abbrev pub byte_of : ConnectFlags → ℕ
byte_of flags =
    bit flags.username 128
    + bit flags.password 64
    + bit flags.will_retain 32
    + flags.will_qos * 8
    + bit flags.will 4
    + bit flags.clean_start 2

unfoldable pub encode : ConnectFlags → Result Mqtt5ParseError ℕ
encode flags = do
  ensure (leb flags.will_qos 2)
      (malformed_packet (codes "CONNECT will QoS must not be greater than 2"))
  _ ← parse (byte_of flags)
  ok (byte_of flags)
