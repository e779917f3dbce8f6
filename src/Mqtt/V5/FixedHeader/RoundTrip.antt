-- ===== src/Mqtt/V5/FixedHeader/RoundTrip.antt =====
-- mqtt/src/v5/fixed_header.rs: what is encoded is read back, and what is read is valid.
use yed_mq.Base.{
  Bool-cases, List, ap, arith, err, inl, inr, leb, length, ok, ok_injective, passed, refl, through,
  true, ℕ, ◌%◌, ◌*◌, ◌++◌, ◌+◌, ◌/◌, ◌<◌, ◌∷◌, ◌≡◌, ◌≤◌, ◌⊎◌,
}
use yed_mq.Mqtt.V5.Primitives.{
  max_variable_byte_integer, parse_variable_byte_integer, variable_byte_integer_too_large,
}
use yed_mq.Mqtt.V5.Primitives.Reading.{encode_inv, encode_large, encode_small, varint-Reads}
use yed_mq.Mqtt.V5.FixedHeader.{
  ControlPacketType, FixedHeader, as_u8, try_from, valid_flags, validate_flags, new, encode, parse,
  header_of, connect, connack, publish, puback, pubrec, pubrel, pubcomp, subscribe, suback,
  unsubscribe, unsuback, pingreq, pingresp, disconnect, auth,
}

pub try_from-as_u8 : (t : ControlPacketType) → try_from (as_u8 t) ≡ ok t
unfolding try_from as_u8
try_from-as_u8 connect = refl
try_from-as_u8 connack = refl
try_from-as_u8 publish = refl
try_from-as_u8 puback = refl
try_from-as_u8 pubrec = refl
try_from-as_u8 pubrel = refl
try_from-as_u8 pubcomp = refl
try_from-as_u8 subscribe = refl
try_from-as_u8 suback = refl
try_from-as_u8 unsubscribe = refl
try_from-as_u8 unsuback = refl
try_from-as_u8 pingreq = refl
try_from-as_u8 pingresp = refl
try_from-as_u8 disconnect = refl
try_from-as_u8 auth = refl

pub new_inv :
    (t : ControlPacketType) (flags n : ℕ) {h : FixedHeader}
    → new t flags n ≡ ok h
    → (valid_flags t flags ≡ true) × (h ≡ header_of t flags n)
unfolding new validate_flags
new_inv t flags n e = elim (Bool-cases (valid_flags t flags)) [
  | inl good ↦ (good, ground arith)
  | inr bad ↦ ground arith
]

parse_first :
    (t : ControlPacketType) (flags max : ℕ) (input : List ℕ) {n : ℕ} {rest : List ℕ}
    → flags < 16
    → valid_flags t flags ≡ true
    → parse_variable_byte_integer input ≡ ok (n, rest)
    → n ≤ max
    → parse ((as_u8 t * 16 + flags % 16) ∷ input) max ≡ ok (header_of t flags n, rest)
unfolding parse validate_flags
parse_first t flags max input {n} small valid e fits =
    let high : (as_u8 t * 16 + flags % 16) / 16 ≡ as_u8 t = omega arith in
    let low : (as_u8 t * 16 + flags % 16) % 16 ≡ flags = omega arith in
    let room : leb n max ≡ true = ground arith in
    rw (high, low, try_from-as_u8 t, valid, e, room) refl

-- A header whose flags fit its packet type is encoded in two to five bytes and read back with what
-- follows it, under a limit that the remaining length keeps; it is refused exactly where the remaining
-- length passes 268435455.
pub header_back :
    (t : ControlPacketType) (flags n max : ℕ) (rest : List ℕ) {h : FixedHeader}
    → flags < 16
    → n ≤ max
    → new t flags n ≡ ok h
    → ((bytes : List ℕ) × (encode h ≡ ok bytes)
        × (n ≤ max_variable_byte_integer)
        × (2 ≤ length bytes)
        × (length bytes ≤ 5)
        × (parse (bytes ++ rest) max ≡ ok (h, rest)))
      ⊎ ((max_variable_byte_integer < n) × (encode h ≡ err (variable_byte_integer_too_large n)))
unfolding encode validate_flags
header_back t flags n max rest small fits e =
    let (valid, shape) = new_inv t flags n e in
    rw shape (elim (Bool-cases (leb n max_variable_byte_integer)) [
      | inl short ↦
          let (bytes, encoded) = encode_small n (ground arith) in
          let (_, pos, size) = encode_inv n encoded in
          inl (
            (as_u8 t * 16 + flags % 16) ∷ bytes,
            rw (valid, encoded) refl,
            ground arith,
            omega arith,
            omega arith,
            parse_first t flags max (bytes ++ rest) small valid (varint-Reads n encoded rest) fits,
          )
      | inr large ↦
          let refused = encode_large n (ground arith) in
          inr (ground arith, rw (valid, refused) refl)
    ])

try_from_inv : (v : ℕ) {t : ControlPacketType} → try_from v ≡ ok t → as_u8 t ≡ v
unfolding try_from as_u8
try_from_inv v e = ground arith

valid_flags-qos :
    (t : ControlPacketType) (flags : ℕ) → valid_flags t flags ≡ true → flags / 2 % 4 ≤ 2
unfolding valid_flags
valid_flags-qos connect flags e = ground arith
valid_flags-qos connack flags e = ground arith
valid_flags-qos publish flags e = ground arith
valid_flags-qos puback flags e = ground arith
valid_flags-qos pubrec flags e = ground arith
valid_flags-qos pubrel flags e = ground arith
valid_flags-qos pubcomp flags e = ground arith
valid_flags-qos subscribe flags e = ground arith
valid_flags-qos suback flags e = ground arith
valid_flags-qos unsubscribe flags e = ground arith
valid_flags-qos unsuback flags e = ground arith
valid_flags-qos pingreq flags e = ground arith
valid_flags-qos pingresp flags e = ground arith
valid_flags-qos disconnect flags e = ground arith
valid_flags-qos auth flags e = ground arith

-- A header that is read keeps the limit, its QoS is 0, 1 or 2, it is what `new` builds from its type and
-- flags, and its type and flags are those of the first byte.
pub parse_bounds :
    (first_byte max : ℕ) (input : List ℕ) {h : FixedHeader} {rest : List ℕ}
    → parse (first_byte ∷ input) max ≡ ok (h, rest)
    → (h.remaining_length ≤ max)
      × (h.qos ≤ 2)
      × (h.flags < 16)
      × (first_byte ≡ as_u8 h.packet_type * 16 + h.flags)
      × (new h.packet_type h.flags h.remaining_length ≡ ok h)
unfolding parse validate_flags new
parse_bounds first_byte max input e = through (try_from (first_byte / 16)) _ e λ t typed e.
    passed (valid_flags t (first_byte % 16)) _ _ e λ valid e.
      through (parse_variable_byte_integer input) _ e λ found read e.
        passed (leb found.0 max) _ _ e λ fits e.
          let code = try_from_inv (first_byte / 16) typed in
          rw (← ap (λ x. x.0) (ok_injective e)) (
            ground arith,
            valid_flags-qos t (first_byte % 16) valid,
            omega arith,
            omega arith,
            rw valid refl,
          )
