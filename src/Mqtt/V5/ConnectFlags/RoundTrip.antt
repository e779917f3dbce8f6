-- ===== src/Mqtt/V5/ConnectFlags/RoundTrip.antt =====
-- mqtt/src/v5/connect.rs: the byte of the flags and the flags determine one another.
use yed_mq.Base.{
  Bool, Bool-cases, ap, arith, false, if◌then◌else◌, inl, inr, leb, not, ok, ok_injective, passed,
  refl, sym, through, true, ℕ, ◌%◌, ◌&&◌, ◌*◌, ◌+◌, ◌/◌, ◌<◌, ◌==◌, ◌||◌, ◌↔◌, ◌∙◌, ◌≡◌, ◌≤◌,
}
use yed_mq.Mqtt.V5.ConnectFlags.{ConnectFlags, bit, bit_set, bits_of, byte_of, encode, parse}

module _ (value u p r q w c : ℕ) (u1 : u ≤ 1) (p1 : p ≤ 1) (r1 : r ≤ 1) (q3 : q ≤ 3) (w1 : w ≤ 1)
    (c1 : c ≤ 1) (e : value ≡ u * 128 + p * 64 + r * 32 + q * 8 + w * 4 + c * 2) where
  digits :
      (value % 2 ≡ 0)
      × (value / 128 % 2 ≡ u)
      × (value / 64 % 2 ≡ p)
      × (value / 32 % 2 ≡ r)
      × (value / 8 % 4 ≡ q)
      × (value / 4 % 2 ≡ w)
      × (value / 2 % 2 ≡ c)
  digits = omega (arith, e)

abbrev digit : Bool → ℕ
digit b = if b then 1 else 0

digit-le : (b : Bool) → digit b ≤ 1
digit-le true = omega arith
digit-le false = omega arith

bit-digit : (b : Bool) (weight : ℕ) → bit b weight ≡ digit b * weight
bit-digit true weight = omega arith
bit-digit false weight = omega arith

read_digit : (b : Bool) → not (digit b == 0) ≡ b
read_digit true = refl
read_digit false = refl

-- The fields are the digits of the byte.
bits_of_lem :
    (value : ℕ) (f : ConnectFlags)
    → f.will_qos ≤ 3
    → value ≡ byte_of f
    → (value % 2 ≡ 0) × (bits_of value ≡ f)
bits_of_lem value f h e =
    let sum : value
        ≡ digit f.username * 128
          + digit f.password * 64
          + digit f.will_retain * 32
          + f.will_qos * 8
          + digit f.will * 4
          + digit f.clean_start * 2 =
      omega (
        arith,
        e,
        bit-digit f.username 128,
        bit-digit f.password 64,
        bit-digit f.will_retain 32,
        bit-digit f.will 4,
        bit-digit f.clean_start 2,
      ) in
    let d =
      digits value (digit f.username) (digit f.password) (digit f.will_retain) f.will_qos
        (digit f.will) (digit f.clean_start) (digit-le f.username) (digit-le f.password)
        (digit-le f.will_retain) h (digit-le f.will) (digit-le f.clean_start) sum in
    (
      d.0,
      rw
          (
            d.1,
            d.2,
            d.3,
            d.4,
            d.5,
            d.6,
            read_digit f.username,
            read_digit f.password,
            read_digit f.will_retain,
            read_digit f.will,
            read_digit f.clean_start,
          )
          refl,
    )

-- What the tests of the parser say of the fields: a password wants a user name, the QoS of the will is 0,
-- 1 or 2, and there is no QoS and no retain flag without a will.
abbrev pub IsConsistent : ConnectFlags → Type 0
IsConsistent f =
    (not (f.password && not f.username) ≡ true)
    × (not (f.will_qos == 3) ≡ true)
    × (not (not f.will && (not (f.will_qos == 0) || f.will_retain)) ≡ true)

parse_inv :
    (value : ℕ) {f : ConnectFlags}
    → parse value ≡ ok f
    → (value % 2 ≡ 0) × (f ≡ bits_of value) × IsConsistent f
unfolding parse
parse_inv value e = passed (value % 2 == 0) _ _ e λ even e.
    passed (not ((bits_of value).password && not (bits_of value).username)) _ _ e λ a e.
      passed (not ((bits_of value).will_qos == 3)) _ _ e λ b e.
        passed
          (not (
            not (bits_of value).will
            && (not ((bits_of value).will_qos == 0) || (bits_of value).will_retain)))
          _ _ e
          λ c e.
            let even' : value % 2 ≡ 0 = ground arith in
            rw (← ok_injective e) (even', refl, (a, b, c))

parse_consistent :
    (value : ℕ) → value % 2 ≡ 0 → IsConsistent (bits_of value) → parse value ≡ ok (bits_of value)
unfolding parse
parse_consistent value even (a, b, c) = rw (even, a, b, c) refl

bit-bit_set : (value weight : ℕ) → bit (bit_set value weight) weight ≡ value / weight % 2 * weight
bit-bit_set value weight = elim (Bool-cases (value / weight % 2 == 0)) [
  | inl clear ↦ rw clear (grind arith)
  | inr set ↦ rw set (grind arith)
]

byte_of-bits_of : (value : ℕ) → value < 256 → value % 2 ≡ 0 → byte_of (bits_of value) ≡ value
byte_of-bits_of value h even = omega (
  arith,
  bit-bit_set value 128,
  bit-bit_set value 64,
  bit-bit_set value 32,
  bit-bit_set value 4,
  bit-bit_set value 2,
)

not_three_low : (qos value : ℕ) → qos ≡ value / 8 % 4 → not (qos == 3) ≡ true → leb qos 2 ≡ true
not_three_low qos value e h = let below : qos < 4 = omega (arith, e) in ground arith

-- The flags are encoded as a byte exactly where the parser reads the byte as these flags.
pub encode_iff_parse :
    (f : ConnectFlags) (value : ℕ) → value < 256 → (encode f ≡ ok value) ↔ (parse value ≡ ok f)
unfolding encode
encode_iff_parse f value h = (
  λ e. passed (leb f.will_qos 2) _ _ e λ low e. through (parse (byte_of f)) _ e λ g read e.
      let same = ok_injective e in
      let (_, shape, _) = parse_inv (byte_of f) read in
      let (_, back) = bits_of_lem value f (ground arith) (sym same) in
      ap parse (sym same) ∙ read ∙ ap ok (shape ∙ ap bits_of same ∙ back),
  λ e.
      let (even, shape, (_, not_three, _)) = parse_inv value e in
      let low : leb f.will_qos 2 ≡ true =
        not_three_low f.will_qos value (ap (λ x. x.will_qos) shape) not_three in
      let byte : byte_of f ≡ value = ap byte_of shape ∙ byte_of-bits_of value h even in
      rw (low, byte, e) refl,
)

pub encode_small_byte : (f : ConnectFlags) {value : ℕ} → encode f ≡ ok value → value < 256
unfolding encode
encode_small_byte f e = passed (leb f.will_qos 2) _ _ e λ low e.
    through (parse (byte_of f)) _ e λ g read e.
      let same = ok_injective e in let small : byte_of f < 256 = ground arith in rw same at small
