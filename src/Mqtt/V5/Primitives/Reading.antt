-- ===== src/Mqtt/V5/Primitives/Reading.antt =====
-- mqtt/src/v5/common.rs: what each encoder writes, its parser reads, whatever follows.
use yed_mq.Base.{
  Bool, Bool-cases, List, Text, [], ap, arith, err, false, if◌then◌else◌, inl, inr, leb, length,
  length-append, ltb, ok, ok-ne-err, ok_injective, refl, suc, sym, true, u16_max, u32_max, ℕ, ◌++◌,
  ◌<◌, ◌∙◌, ◌∷◌, ◌≡◌, ◌≤◌,
}
use yed_mq.Mqtt.V5.Primitives.{
  Parsed, encode_binary, encode_rounds, encode_utf8_string, encode_variable_byte_integer, is_utf8,
  max_variable_byte_integer, parse_binary, parse_boolean, parse_u16, parse_u32, parse_u8,
  parse_utf8_string, parse_variable_byte_integer, put_u16, put_u32, variable_byte_integer_too_large,
}
use yed_mq.Mqtt.V5.Primitives.Varint.{parse-encode, encode_rounds-short}
use yed_mq.Mqtt.V5.Primitives.Strings.{parse-put_u16, parse-encode_binary, parse-encode_utf8_string}

-- The parser takes exactly these bytes, and gives this value.
abbrev pub Reads : {A : Type 0} → (List ℕ → Parsed A) → List ℕ → A → Type 0
Reads f bytes a = (rest : List ℕ) → f (bytes ++ rest) ≡ ok (a, rest)

pub encode_small :
    (value : ℕ)
    → value ≤ max_variable_byte_integer
    → (bytes : List ℕ) × (encode_variable_byte_integer value ≡ ok bytes)
unfolding encode_variable_byte_integer
encode_small value small =
    let fits : ltb max_variable_byte_integer value ≡ false = ground arith in
    (encode_rounds 4 value, rw fits refl)

pub encode_large :
    (value : ℕ)
    → max_variable_byte_integer < value
    → encode_variable_byte_integer value ≡ err (variable_byte_integer_too_large value)
unfolding encode_variable_byte_integer
encode_large value large = ground arith

pub encode_rounds_pos : (fuel value : ℕ) → 0 < length (encode_rounds (suc fuel) value)
unfolding encode_rounds
encode_rounds_pos fuel value = ground arith

pub encode_inv :
    (value : ℕ) {bytes : List ℕ}
    → encode_variable_byte_integer value ≡ ok bytes
    → (value ≤ max_variable_byte_integer) × (0 < length bytes) × (length bytes ≤ 4)
unfolding encode_variable_byte_integer
encode_inv value {bytes} e = ground (arith, encode_rounds_pos 3 value, encode_rounds-short 4 value)

pub varint-Reads :
    (value : ℕ) {bytes : List ℕ}
    → encode_variable_byte_integer value ≡ ok bytes
    → Reads parse_variable_byte_integer bytes value
varint-Reads value {bytes} e rest = elim (parse-encode value rest) [
  | inl found ↦
      let same : found.1.0 ≡ bytes = ok_injective (sym found.1.1 ∙ e) in rw same at (found.1.4)
  | inr refused ↦ absurd (ok-ne-err (sym e ∙ refused.1))
]

pub u8-Reads : (n : ℕ) (context : Text) → Reads (λ s. parse_u8 s context) (n ∷ []) n
unfolding parse_u8
u8-Reads n context rest = refl

pub u16-Reads :
    (n : ℕ) (context : Text) → n ≤ u16_max → Reads (λ s. parse_u16 s context) (put_u16 n) n
u16-Reads n context h rest = parse-put_u16 n rest context h

pub u32-Reads :
    (n : ℕ) (context : Text) → n ≤ u32_max → Reads (λ s. parse_u32 s context) (put_u32 n) n
unfolding parse_u32
u32-Reads n context h rest = ap (λ x. ok (x, rest)) (omega arith)

pub bool-Reads :
    (b : Bool) (property : Text)
    → Reads (λ s. parse_boolean s property) ((if b then 1 else 0) ∷ []) b
unfolding parse_boolean
bool-Reads true property rest = refl
bool-Reads false property rest = refl

pub binary-Reads :
    (value : List ℕ) {bytes : List ℕ}
    → encode_binary value ≡ ok bytes
    → Reads parse_binary bytes value
binary-Reads value {bytes} e rest = elim (parse-encode_binary value rest) [
  | inl found ↦ let same : found.0 ≡ bytes = ok_injective (sym found.1 ∙ e) in rw same at (found.3)
  | inr refused ↦ absurd (ok-ne-err (sym e ∙ refused.1))
]

pub string-Reads :
    (value : Text) {bytes : List ℕ}
    → encode_utf8_string value ≡ ok bytes
    → is_utf8 value ≡ true
    → Reads parse_utf8_string bytes value
string-Reads value {bytes} e good rest = elim (parse-encode_utf8_string value rest) [
  | inl found ↦
      let same : found.0 ≡ bytes = ok_injective (sym found.1 ∙ e) in
      let back = rw same at (found.2) in rw good at back
  | inr refused ↦ absurd (ok-ne-err (sym e ∙ refused.1))
]

pub leb-append : (xs ys : List ℕ) → leb (length xs) (length (xs ++ ys)) ≡ true
leb-append xs ys = ground (arith, length-append xs ys)

pub encode_utf8_string_pos :
    (value : Text) {bytes : List ℕ} → encode_utf8_string value ≡ ok bytes → 0 < length bytes
unfolding encode_utf8_string
encode_utf8_string_pos value e = elim (Bool-cases (ltb u16_max (length value))) [
  | inl long ↦ absurd (ok-ne-err (sym (rw long at e)))
  | inr fits ↦ omega (arith, ap length (ok_injective (rw fits at e)))
]
