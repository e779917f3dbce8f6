-- ===== src/Mqtt/V5/Primitives/Varint.antt =====
-- mqtt/src/v5/common.rs: the variable byte integer.
use yed_mq.Base.{
  ℕ, zero, suc, ◌+◌, ◌*◌, ◌/◌, ◌%◌, ◌^◌, ◌≤◌, ◌<◌, ◌≡◌, refl, ap, ◌∙◌, List, [], ◌∷◌, ◌++◌, arith,
  leb, ltb, ◌⊎◌, length, ok, err, Bool-cases, inl, inr,
}
use yed_mq.Mqtt.V5.Primitives.{
  variable_byte_integer_too_large, max_variable_byte_integer, parse_rounds,
  parse_variable_byte_integer, encode_rounds, encode_variable_byte_integer, len_rounds,
  variable_byte_integer_len,
}

last_byte :
    (rounds b acc m : ℕ) (rest : List ℕ)
    → b < 128
    → acc + b * m < 2 ^ 32
    → parse_rounds (suc rounds) (b ∷ rest) acc m ≡ ok (acc + b * m, rest)
unfolding parse_rounds
last_byte rounds b acc m rest small fits =
    let low : b % 128 ≡ b = omega arith in
    let top : b / 128 % 2 ≡ 0 = omega arith in
    let sum : (acc + b * m) % 2 ^ 32 ≡ acc + b * m = omega (arith, fits) in rw (low, top, sum) refl

more_bytes :
    (rounds b acc m : ℕ) (rest : List ℕ)
    → b < 128
    → acc + b * m < 2 ^ 32
    → m * 128 < 2 ^ 32
    → parse_rounds (suc rounds) ((b + 128) ∷ rest) acc m
      ≡ parse_rounds rounds rest (acc + b * m) (m * 128)
unfolding parse_rounds
more_bytes rounds b acc m rest small fits next =
    let low : (b + 128) % 128 ≡ b = omega arith in
    let top : (b + 128) / 128 % 2 ≡ 1 = omega arith in
    let sum : (acc + b * m) % 2 ^ 32 ≡ acc + b * m = omega (arith, fits) in
    let product : m * 128 % 2 ^ 32 ≡ m * 128 = omega (arith, next) in
    rw (low, top, sum, product) refl

encode_last : (fuel value : ℕ) → value < 128 → encode_rounds (suc fuel) value ≡ value ∷ []
unfolding encode_rounds
encode_last fuel value small = ground arith

encode_more :
    (fuel value : ℕ)
    → 128 ≤ value
    → encode_rounds (suc fuel) value ≡ (value % 128 + 128) ∷ encode_rounds fuel (value / 128)
unfolding encode_rounds
encode_more fuel value large = ground arith

-- One byte of an encoded value, where the bytes behind it are read right.
round_step :
    (fuel value acc m : ℕ) (rest : List ℕ)
    → acc + value % 128 * m < 2 ^ 32
    → (128 ≤ value
        → (m * 128 < 2 ^ 32)
          × (parse_rounds fuel
                (encode_rounds fuel (value / 128) ++ rest)
                (acc + value % 128 * m)
                (m * 128)
              ≡ ok (acc + value * m, rest)))
    → parse_rounds (suc fuel) (encode_rounds (suc fuel) value ++ rest) acc m
      ≡ ok (acc + value * m, rest)
round_step fuel value acc m rest fits behind = elim (Bool-cases (leb 128 value)) [
  | inl large ↦
      let b = behind (ground arith) in
      rw (encode_more fuel value (ground arith)) (
        more_bytes fuel (value % 128) acc m (encode_rounds fuel (value / 128) ++ rest) (omega arith)
          fits b.0
        ∙ b.1)
  | inr small ↦
      let low : value % 128 ≡ value = ground arith in
      rw (encode_last fuel value (ground arith))
        (last_byte fuel value acc m rest (ground arith) (rw low at fits))
]

len_rounds-encode :
    (value : ℕ)
    → value ≤ max_variable_byte_integer
    → len_rounds 4 value 1 ≡ length (encode_rounds 4 value)
unfolding len_rounds encode_rounds
len_rounds-encode value v = ground arith

pub encode_rounds-short : (fuel value : ℕ) → length (encode_rounds fuel value) ≤ fuel
unfolding encode_rounds
encode_rounds-short zero value = omega arith
encode_rounds-short (suc fuel) value = ground (arith, encode_rounds-short fuel (value / 128))

round1 :
    (value acc : ℕ) (rest : List ℕ)
    → value < 128
    → acc < 2097152
    → parse_rounds 1 (encode_rounds 1 value ++ rest) acc 2097152 ≡ ok (acc + value * 2097152, rest)
round1 value acc rest v a =
    round_step 0 value acc 2097152 rest (omega arith) (λ l. absurd (omega arith))

round2 :
    (value acc : ℕ) (rest : List ℕ)
    → value < 16384
    → acc < 16384
    → parse_rounds 2 (encode_rounds 2 value ++ rest) acc 16384 ≡ ok (acc + value * 16384, rest)
round2 value acc rest v a = round_step 1 value acc 16384 rest (omega arith) (λ l. (
  omega arith,
  round1 (value / 128) (acc + value % 128 * 16384) rest (omega arith) (omega arith)
      ∙ ap (λ x. ok (x, rest)) (omega arith),
))

round3 :
    (value acc : ℕ) (rest : List ℕ)
    → value < 2097152
    → acc < 128
    → parse_rounds 3 (encode_rounds 3 value ++ rest) acc 128 ≡ ok (acc + value * 128, rest)
round3 value acc rest v a = round_step 2 value acc 128 rest (omega arith) (λ l. (
  omega arith,
  round2 (value / 128) (acc + value % 128 * 128) rest (omega arith) (omega arith)
      ∙ ap (λ x. ok (x, rest)) (omega arith),
))

round4 :
    (value : ℕ) (rest : List ℕ)
    → value ≤ max_variable_byte_integer
    → parse_rounds 4 (encode_rounds 4 value ++ rest) 0 1 ≡ ok (0 + value * 1, rest)
round4 value rest v = round_step 3 value 0 1 rest (omega arith) (λ l. (
  omega arith,
  round3 (value / 128) (0 + value % 128 * 1) rest (omega arith) (omega arith)
      ∙ ap (λ x. ok (x, rest)) (omega arith),
))

-- Every value up to 268435455 is encoded, in as many bytes as `variable_byte_integer_len` says, at
-- most four, and is read back from them, whatever follows; a larger value is refused by both.
pub parse-encode :
    (value : ℕ) (rest : List ℕ)
    → ((value ≤ 268_435_455)
        × ((bytes : List ℕ) × (encode_variable_byte_integer value ≡ ok bytes)
            × (variable_byte_integer_len value ≡ ok (length bytes))
            × (length bytes ≤ 4)
            × (parse_variable_byte_integer (bytes ++ rest) ≡ ok (value, rest))))
      ⊎ ((268_435_455 < value)
          × (encode_variable_byte_integer value ≡ err (variable_byte_integer_too_large value))
          × (variable_byte_integer_len value ≡ err (variable_byte_integer_too_large value)))
unfolding encode_variable_byte_integer variable_byte_integer_len parse_variable_byte_integer
parse-encode value rest = elim (Bool-cases (ltb max_variable_byte_integer value)) [
  | inl large ↦ inr (ground arith, rw large refl, rw large refl)
  | inr small ↦ inl (
    ground arith,
    (
      encode_rounds 4 value,
      rw small refl,
      rw small (ap ok (len_rounds-encode value (ground arith))),
      encode_rounds-short 4 value,
      round4 value rest (ground arith) ∙ ap (λ x. ok (x, rest)) (omega arith),
    ),
  )
]
