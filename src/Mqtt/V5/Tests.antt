-- ===== src/Mqtt/V5/Tests.antt =====
-- mqtt/src/v5/common.rs on concrete values.
use yed_mq.Base.{
  ℕ, ◌<◌, ◌≤◌, ◌≡◌, ◌⊎◌, List, [], ◌∷◌, ◌++◌, length, Text, ok, err, u16_max, if◌then◌else◌,
}
use yed_mq.Mqtt.V5.Primitives.{
  variable_byte_integer_too_large, string_too_long, invalid_utf8, is_utf8,
  parse_variable_byte_integer, encode_variable_byte_integer, variable_byte_integer_len,
  parse_utf8_string, encode_utf8_string,
}
use yed_mq.Mqtt.V5.Primitives.Varint.{parse-encode}
use yed_mq.Mqtt.V5.Primitives.Strings.{parse-encode_utf8_string}

abbrev behind : List ℕ
behind = 7 ∷ []

abbrev greeting : Text
greeting = b'h' ∷ b'i' ∷ []

parse-encode_example :
    ((16384 ≤ 268_435_455)
      × ((bytes : List ℕ) × (encode_variable_byte_integer 16384 ≡ ok bytes)
          × (variable_byte_integer_len 16384 ≡ ok (length bytes))
          × (length bytes ≤ 4)
          × (parse_variable_byte_integer (bytes ++ behind) ≡ ok (16384, behind))))
    ⊎ ((268_435_455 < 16384)
        × (encode_variable_byte_integer 16384 ≡ err (variable_byte_integer_too_large 16384))
        × (variable_byte_integer_len 16384 ≡ err (variable_byte_integer_too_large 16384)))
parse-encode_example = parse-encode 16384 behind

parse-encode_utf8_string_example :
    ((bytes : List ℕ) × (encode_utf8_string greeting ≡ ok bytes)
      × (parse_utf8_string (bytes ++ behind)
          ≡ (if is_utf8 greeting then ok (greeting, behind) else err invalid_utf8)))
    ⊎ ((u16_max < length greeting)
        × (encode_utf8_string greeting ≡ err (string_too_long (length greeting))))
parse-encode_utf8_string_example = parse-encode_utf8_string greeting behind
