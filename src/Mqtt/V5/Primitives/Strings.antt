-- ===== src/Mqtt/V5/Primitives/Strings.antt =====
-- mqtt/src/v5/common.rs: numbers of two bytes, binary data and strings.
use yed_mq.Base.{
  ℕ, ◌+◌, ◌*◌, ◌/◌, ◌%◌, ◌≤◌, ◌<◌, ◌≡◌, refl, if◌then◌else◌, ap, ◌⊎◌, false, List, ◌++◌, arith,
  length, ltb, Text, ok, err, u16_max, Bool-cases, inl, inr, take-length-append, drop-length-append,
  length-append,
}
use yed_mq.Mqtt.V5.Primitives.{
  string_too_long, binary_too_long, invalid_utf8, parse_u16, parse_binary, as_utf8, is_utf8,
  parse_utf8_string, put_u16, encode_utf8_string, encode_binary,
}

-- Two bytes hold a `u16`.
pub parse-put_u16 :
    (n : ℕ) (rest : List ℕ) (context : Text)
    → n ≤ u16_max
    → parse_u16 (put_u16 n ++ rest) context ≡ ok (n, rest)
unfolding parse_u16
parse-put_u16 n rest context h = ap (λ x. ok (x, rest)) (omega arith)

data_back :
    (value rest : List ℕ)
    → length value ≤ u16_max
    → parse_binary (put_u16 (length value) ++ value ++ rest) ≡ ok (value, rest)
unfolding parse_binary
data_back value rest h =
    let size : length value / 256 % 256 * 256 + length value % 256 ≡ length value = omega arith in
    let enough : ltb (length (value ++ rest)) (length value) ≡ false =
      ground (arith, length-append value rest) in
    rw (size, enough, take-length-append value rest, drop-length-append value rest) refl

-- Binary data of up to 65535 bytes is encoded, and read back with what follows it left over; longer data
-- is refused.
pub parse-encode_binary :
    (value rest : List ℕ)
    → ((bytes : List ℕ) × (encode_binary value ≡ ok bytes)
        × (length bytes ≡ length value + 2)
        × (parse_binary (bytes ++ rest) ≡ ok (value, rest)))
      ⊎ ((u16_max < length value) × (encode_binary value ≡ err (binary_too_long (length value))))
unfolding encode_binary
parse-encode_binary value rest = elim (Bool-cases (ltb u16_max (length value))) [
  | inl long ↦ inr (ground arith, rw long refl)
  | inr fits ↦ inl (
    put_u16 (length value) ++ value,
    rw fits refl,
    omega arith,
    data_back value rest (ground arith),
  )
]

-- A string of up to 65535 bytes is encoded, and read back where it is UTF-8; bytes that are not UTF-8
-- are refused by the parser, and a longer string by the encoder.
pub parse-encode_utf8_string :
    (value : Text) (rest : List ℕ)
    → ((bytes : List ℕ) × (encode_utf8_string value ≡ ok bytes)
        × (parse_utf8_string (bytes ++ rest)
            ≡ (if is_utf8 value then ok (value, rest) else err invalid_utf8)))
      ⊎ ((u16_max < length value)
          × (encode_utf8_string value ≡ err (string_too_long (length value))))
unfolding encode_utf8_string parse_utf8_string
parse-encode_utf8_string value rest = elim (Bool-cases (ltb u16_max (length value))) [
  | inl long ↦ inr (ground arith, rw long refl)
  | inr fits ↦ inl (
    put_u16 (length value) ++ value,
    rw fits refl,
    ap as_utf8 (data_back value rest (ground arith)),
  )
]
