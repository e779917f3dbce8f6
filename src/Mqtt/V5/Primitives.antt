-- ===== src/Mqtt/V5/Primitives.antt =====
-- mqtt/src/v5/common.rs: the primitives of the MQTT 5 codec. A parser gives back what it read and the
-- rest of its input, an encoder the bytes that it adds to its buffer. A byte is a number below 256.
pub mod Varint
pub mod Strings
pub mod Reading
pub mod Taken
use yed_mq.Base.{
  ℕ, zero, suc, ◌+◌, ◌*◌, ◌/◌, ◌%◌, ◌^◌, Bool, true, false, not, ◌&&◌, Option, none, some, List, [],
  ◌∷◌, ◌++◌, ltb, leb, ◌==◌, if◌then◌else◌, Text, length, take, drop, Result, ok, err, u16_max,
}

pub data Mqtt5ParseError : Type 0 where
  incomplete : Text → Mqtt5ParseError
  malformed_variable_byte_integer : Mqtt5ParseError
  variable_byte_integer_too_large : ℕ → Mqtt5ParseError
  string_too_long binary_too_long : ℕ → Mqtt5ParseError
  invalid_utf8 : Mqtt5ParseError
  malformed_packet : Text → Mqtt5ParseError
  unsupported_packet_type : ℕ → Mqtt5ParseError
  invalid_fixed_header_flags : ℕ → ℕ → Mqtt5ParseError
  remaining_length_exceeded : ℕ → ℕ → Mqtt5ParseError
  unknown_property : ℕ → Mqtt5ParseError
  duplicate_property : Text → Mqtt5ParseError
  property_not_allowed : Text → Text → Mqtt5ParseError
  invalid_property_value : Text → Mqtt5ParseError
  unknown_reason_code : ℕ → Mqtt5ParseError
  reason_code_not_allowed : ℕ → Text → Mqtt5ParseError

abbrev pub Parsed : Type 0 → Type 0
Parsed A = Result Mqtt5ParseError (A × List ℕ)

abbrev pub max_variable_byte_integer : ℕ
max_variable_byte_integer = 268435455

abbrev varint_context : Text
varint_context =
    b'v' ∷ b'a' ∷ b'r' ∷ b'i' ∷ b'a' ∷ b'b' ∷ b'l' ∷ b'e' ∷ b' ' ∷ b'b' ∷ b'y' ∷ b't' ∷ b'e' ∷ b' '
    ∷ b'i' ∷ b'n' ∷ b't' ∷ b'e' ∷ b'g' ∷ b'e' ∷ b'r' ∷ []

-- The rounds that are left of `for index in 0..4`; the value and the multiplier are `u32`.
unfoldable pub parse_rounds : ℕ → List ℕ → ℕ → ℕ → Parsed ℕ
parse_rounds zero input value multiplier = err malformed_variable_byte_integer
parse_rounds (suc rounds) [] value multiplier = err (incomplete varint_context)
parse_rounds (suc rounds) (b ∷ input) value multiplier =
    let value' = (value + b % 128 * multiplier) % 2 ^ 32 in
    let rest = parse_rounds rounds input value' (multiplier * 128 % 2 ^ 32) in
    if b / 128 % 2 == 0 then ok (value', input) else rest

unfoldable pub parse_variable_byte_integer : List ℕ → Parsed ℕ
unfolding parse_rounds
parse_variable_byte_integer input = parse_rounds 4 input 0 1

-- The loop of the encoder, on fuel.
unfoldable pub encode_rounds : ℕ → ℕ → List ℕ
encode_rounds zero value = []
encode_rounds (suc fuel) value =
    let rest = encode_rounds fuel (value / 128) in
    if value / 128 == 0 then value % 128 ∷ [] else (value % 128 + 128) ∷ rest

unfoldable pub encode_variable_byte_integer : ℕ → Result Mqtt5ParseError (List ℕ)
unfolding encode_rounds
encode_variable_byte_integer value =
    if ltb max_variable_byte_integer value
    then err (variable_byte_integer_too_large value)
    else ok (encode_rounds 4 value)

-- `while value >= 128`, on fuel.
unfoldable pub len_rounds : ℕ → ℕ → ℕ → ℕ
len_rounds zero value len = len
len_rounds (suc fuel) value len =
    let rest = len_rounds fuel (value / 128) (suc len) in if leb 128 value then rest else len

unfoldable pub variable_byte_integer_len : ℕ → Result Mqtt5ParseError ℕ
unfolding len_rounds
variable_byte_integer_len value =
    if ltb max_variable_byte_integer value
    then err (variable_byte_integer_too_large value)
    else ok (len_rounds 4 value 1)

unfoldable pub parse_u8 : List ℕ → Text → Parsed ℕ
parse_u8 [] context = err (incomplete context)
parse_u8 (a ∷ input) context = ok (a, input)

unfoldable pub parse_u16 : List ℕ → Text → Parsed ℕ
parse_u16 (a ∷ b ∷ input) context = ok (a * 256 + b, input)
parse_u16 _ context = err (incomplete context)

unfoldable pub parse_u32 : List ℕ → Text → Parsed ℕ
parse_u32 (a ∷ b ∷ c ∷ d ∷ input) context = ok (((a * 256 + b) * 256 + c) * 256 + d, input)
parse_u32 _ context = err (incomplete context)

abbrev length_context : Text
length_context =
    b'b' ∷ b'i' ∷ b'n' ∷ b'a' ∷ b'r' ∷ b'y' ∷ b' ' ∷ b'd' ∷ b'a' ∷ b't' ∷ b'a' ∷ b' ' ∷ b'l' ∷ b'e'
    ∷ b'n' ∷ b'g' ∷ b't' ∷ b'h' ∷ []

abbrev data_context : Text
data_context = b'b' ∷ b'i' ∷ b'n' ∷ b'a' ∷ b'r' ∷ b'y' ∷ b' ' ∷ b'd' ∷ b'a' ∷ b't' ∷ b'a' ∷ []

abbrev cut_at : Parsed ℕ → Parsed (List ℕ)
cut_at (err e) = err e
cut_at (ok (n, input)) =
    if ltb (length input) n then err (incomplete data_context) else ok (take n input, drop n input)

unfoldable pub parse_binary : List ℕ → Parsed (List ℕ)
unfolding parse_u16
parse_binary input = cut_at (parse_u16 input length_context)

-- `str::from_utf8`: `pending` more bytes of a character are due, the next one in `low..=high`.
unfoldable pub utf8_from : ℕ → ℕ → ℕ → Text → Bool
utf8_from zero low high [] = true
utf8_from (suc pending) low high [] = false
utf8_from (suc pending) low high (b ∷ s) =
    let rest = utf8_from pending 128 191 s in if leb low b && leb b high then rest else false
utf8_from zero low high (b ∷ s) =
    let one = utf8_from 0 128 191 s in
    let two = utf8_from 1 128 191 s in
    let three = utf8_from 2 (if b == 224 then 160 else 128) (if b == 237 then 159 else 191) s in
    let four = utf8_from 3 (if b == 240 then 144 else 128) (if b == 244 then 143 else 191) s in
    if ltb b 128
    then one
    else if ltb b 194
    then false
    else if ltb b 224
    then two
    else if ltb b 240
    then three
    else if ltb b 245
    then four
    else false

unfoldable pub is_utf8 : Text → Bool
unfolding utf8_from
is_utf8 s = utf8_from 0 128 191 s

abbrev pub as_utf8 : Parsed (List ℕ) → Parsed Text
as_utf8 (err e) = err e
as_utf8 (ok (data_bytes, input)) =
    if is_utf8 data_bytes then ok (data_bytes, input) else err invalid_utf8

unfoldable pub parse_utf8_string : List ℕ → Parsed Text
unfolding parse_binary
parse_utf8_string input = as_utf8 (parse_binary input)

abbrev as_boolean : Text → Parsed ℕ → Parsed Bool
as_boolean property (err e) = err e
as_boolean property (ok (value, input)) =
    if value == 0
    then ok (false, input)
    else if value == 1
    then ok (true, input)
    else err (invalid_property_value property)

unfoldable pub parse_boolean : List ℕ → Text → Parsed Bool
unfolding parse_u8
parse_boolean input property = as_boolean property (parse_u8 input property)

-- `put_u16(length as u16)`
abbrev pub put_u16 : ℕ → List ℕ
put_u16 n = (n / 256 % 256) ∷ (n % 256) ∷ []

-- `put_u32`
abbrev pub put_u32 : ℕ → List ℕ
put_u32 n = (n / 16777216 % 256) ∷ (n / 65536 % 256) ∷ (n / 256 % 256) ∷ (n % 256) ∷ []

unfoldable pub encode_utf8_string : Text → Result Mqtt5ParseError (List ℕ)
encode_utf8_string value =
    if ltb u16_max (length value)
    then err (string_too_long (length value))
    else ok (put_u16 (length value) ++ value)

unfoldable pub encode_binary : List ℕ → Result Mqtt5ParseError (List ℕ)
encode_binary value =
    if ltb u16_max (length value)
    then err (binary_too_long (length value))
    else ok (put_u16 (length value) ++ value)
