-- ===== src/Mqtt/V5/Frame/RoundTrip.antt =====
-- mqtt/src/v5: a framed body is found again.
use yed_mq.Base.{
  List, Text, [], ap, append_assoc, arith, drop-length-append, inl, inr, leb, length, length-append,
  map, ok, ok-ne-err, ok_injective, passed, refl, sym, take-length-append, through, true, u32_max,
  ℕ, ◌++◌, ◌<◌, ◌==◌, ◌∙◌, ◌∷◌, ◌≡◌, ◌≤◌,
}
use yed_mq.Mqtt.Packet.{
  ProtocolVersion, v3_1_1, v5_0, ReasonCode, success, Properties, default_properties,
}
use yed_mq.Mqtt.V5.Primitives.{max_variable_byte_integer}
use yed_mq.Mqtt.V5.Primitives.Reading.{leb-append}
use yed_mq.Mqtt.V5.FixedHeader
use yed_mq.Mqtt.V5.FixedHeader.{ControlPacketType, FixedHeader, header_of, as_u8}
use yed_mq.Mqtt.V5.FixedHeader.RoundTrip.{header_back, new_inv}
use yed_mq.Mqtt.V5.ReasonCode.RoundTrip.{as_read}
use yed_mq.Mqtt.V5.Frame.{framed, header_for, is_default, is_empty, is_success, is_v5, split_body}

-- What a framed body consists of: its header is read for the packet type, the body is split off, and its
-- length is one that the header can hold.
pub record IsFrame (t : ControlPacketType) (flags max : ℕ) (body bytes rest : List ℕ) : Type 0 where
  pub head :
      (message : Text)
      → header_for t message (bytes ++ rest) max
        ≡ ok (header_of t flags (length body), body ++ rest)
  pub split :
      (context : Text)
      → split_body context (header_of t flags (length body)) (body ++ rest) ≡ ok (body, rest)
  pub short : length body ≤ max_variable_byte_integer

split_framed :
    (t : ControlPacketType) (flags : ℕ) (body rest : List ℕ) (context : Text)
    → split_body context (header_of t flags (length body)) (body ++ rest) ≡ ok (body, rest)
unfolding split_body
split_framed t flags body rest context =
    rw (leb-append body rest, take-length-append body rest, drop-length-append body rest) refl

same_type : (t : ControlPacketType) → (as_u8 t == as_u8 t) ≡ true
same_type t = ground arith

pub header_for_lem :
    (t : ControlPacketType) (message : Text) (input rest : List ℕ) (flags n max : ℕ)
    → FixedHeader.parse input max ≡ ok (header_of t flags n, rest)
    → header_for t message input max ≡ ok (header_of t flags n, rest)
unfolding header_for
header_for_lem t message input rest flags n max e = rw (e, same_type t) refl

-- A body that is framed within the limit.
pub framed_back :
    (t : ControlPacketType) (flags max : ℕ) (body rest : List ℕ) {bytes : List ℕ}
    → flags < 16
    → length bytes ≤ max
    → framed t flags body ≡ ok bytes
    → IsFrame t flags max body bytes rest
unfolding framed
framed_back t flags max body rest {bytes} small fits e =
    passed (leb (length body) u32_max) _ _ e λ below e.
      through (FixedHeader.new t flags (length body)) _ e λ h made e.
        through (FixedHeader.encode h) _ e λ header written e.
          let joined = ok_injective e in
          let room : length body ≤ max =
            omega (arith, length-append header body, ap length joined, fits) in
          elim (header_back t flags (length body) max (body ++ rest) small room made) [
            | inl found ↦
                let shape = (new_inv t flags (length body) made).1 in
                let same : found.0 ≡ header = ok_injective (sym found.1 ∙ written) in
                let start : bytes ++ rest ≡ found.0 ++ (body ++ rest) =
                  rw (← joined, same, append_assoc header body rest) refl in
                record {
                  head = λ message.
                      header_for_lem t message (bytes ++ rest) (body ++ rest) flags (length body)
                        max (rw start (rw shape at (found.5)));
                  split = split_framed t flags body rest;
                  short = found.2;
                }
            | inr refused ↦ absurd (ok-ne-err (sym written ∙ refused.1))
          ]

pub is_default_lem : (p : Properties) → is_default p ≡ true → p ≡ default_properties
unfolding is_default
is_default_lem p e = ground arith

pub v5_of : (v : ProtocolVersion) → is_v5 v ≡ true → v ≡ v5_0
v5_of v5_0 e = refl
v5_of v3_1_1 e = cc

pub success_read : (r : ReasonCode) → is_success r ≡ true → as_read r ≡ success
success_read success e = refl
success_read r e = cc

pub is_empty-map : {A B : Type 0} (f : A → B) (xs : List A) → is_empty (map f xs) ≡ is_empty xs
is_empty-map f [] = refl
is_empty-map f (x ∷ xs) = refl
